-- ===== src/Replica/Orc.antt =====
-- Orc as a browser mirrors it.
use synk.Base.{[], sym, ap, ◌∙◌}
use synk.Stest.Orc.{OrcDiff, resolve}
use synk.Stest.Orc.Edits.{Fields}
use synk.Stest.Orc.Resolve.{apply, resolve_lem, apply-state}
use synk.Stest.Orc.Methods.{orc_object}
use synk.Replica.{Script, IsScript}

abbrev no_fields : Fields
no_fields = record { id = []; sub_key = []; name = [] }

-- A constructor that takes its fields from the state, and an update that writes those of a diff
abbrev pub orc_script : Script OrcDiff Fields
orc_script = record { construct = λ d. apply d no_fields; update = apply }

pub orc_script-IsScript : IsScript orc_object orc_script
orc_script-IsScript = record {
  update-resolve = λ o.
      ap (apply (resolve o).0) ((apply-state o no_fields).0)
      ∙ (resolve_lem o).2
      ∙ sym ((apply-state (resolve o).1 no_fields).0);
}
