-- ===== src/Roadmap.antt =====
-- core/roadmap.py: a roadmap from the process templates.
use film_compliance_agent.Base.{
  ℕ, suc, String, false, Option, none, some, List, [], ◌∷◌, is_blank, is_empty, ◌||◌, string_eq,
  if◌then◌else◌,
}
use film_compliance_agent.Base.Dict.{lookup}
use film_compliance_agent.Schemas.Project.{Roadmap, RoadmapStep}
use film_compliance_agent.Schemas.Policy.{RawStep, ProcessPack}
use film_compliance_agent.Forms.{or_empty}

abbrev pub text_of : Option String → String
text_of none = ""
text_of (some s) = s

-- the loop of `_steps_for`, from an index on
unfoldable pub read_steps : ℕ → List RawStep → List RoadmapStep
read_steps index [] = []
read_steps index (raw ∷ rest) =
    let steps = read_steps (suc index) rest in
    if is_blank raw.name || is_blank raw.owner
    then steps
    else record {
      idx = index;
      name = text_of raw.name;
      owner = text_of raw.owner;
      material_refs = raw.material_refs;
      status = "pending";
      est_weeks = raw.est_weeks;
    }
      ∷ steps

unfoldable pub steps_for : String → ProcessPack → List RoadmapStep
steps_for template pack = read_steps 1 (or_empty (lookup template pack.templates))

unfoldable pub build_roadmap : String → ProcessPack → Roadmap × List String
build_roadmap template pack =
    let steps = steps_for template pack in
    (
      record { template = template; steps = steps; current_step_idx = 1; confirmed = false },
      if is_empty steps then "roadmap_template_pending" ∷ [] else [],
    )
