-- ===== src/Pipeline/Stages.antt =====
-- packages/contracts/src/turn/stages.ts: the stages of a turn in their order.
use rpenginext.Common.{List, [], ◌∷◌, String}

pub data StageId : Type 0 where
  begin normalize intent guard plan propose validate_commands narrate present commit after end :
      StageId

abbrev pub stage_ids : List StageId
stage_ids =
    begin ∷ normalize ∷ intent ∷ guard ∷ plan ∷ propose ∷ validate_commands ∷ narrate ∷ present
    ∷ commit ∷ after ∷ end ∷ []

abbrev pub stage_name : StageId → String
stage_name begin = "begin"
stage_name normalize = "normalize"
stage_name intent = "intent"
stage_name guard = "guard"
stage_name plan = "plan"
stage_name propose = "propose"
stage_name validate_commands = "validate_commands"
stage_name narrate = "narrate"
stage_name present = "present"
stage_name commit = "commit"
stage_name after = "after"
stage_name end = "end"
