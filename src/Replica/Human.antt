-- ===== src/Replica/Human.antt =====
-- Human as a browser mirrors it: plain fields, over which the values of a diff are written.
use synk.Base.{pos, [], refl, sym, ap, ◌∙◌}
use synk.Stest.Human.{Human, HumanDiff, get_prev_sub_key, state, resolve}
use synk.Stest.Human.Edits.{Fields, Edit, to_x, to_y, to_cx, to_cy, to_ci, to_map_id, edit}
use synk.Stest.Human.Resolve.{apply, resolve_lem, apply-state}
use synk.Stest.Human.Methods.{human_object}
use synk.Replica.{Script, IsScript}
use synk.Replica.History.{Edited}

abbrev no_fields : Fields
no_fields = record { x = pos 0; y = pos 0; cx = pos 0; cy = pos 0; ci = pos 0; map_id = [] }

-- A constructor that takes its fields from the state, and an update that writes those of a diff
abbrev pub human_script : Script HumanDiff Fields
human_script = record { construct = λ d. apply d no_fields; update = apply }

pub human_script-IsScript : IsScript human_object human_script
human_script-IsScript = record {
  update-resolve = λ o.
      ap (apply (resolve o).0) ((apply-state o no_fields).0)
      ∙ (resolve_lem o).2
      ∙ sym ((apply-state (resolve o).1 no_fields).0);
}

-- The setters edit a Human.
pub edit-Edited : (o : Human) (e : Edit) → Edited human_object o (edit o e)
unfolding edit synk.Stest.Human.set_x synk.Stest.Human.set_y synk.Stest.Human.set_cy
    synk.Stest.Human.set_cx synk.Stest.Human.set_ci synk.Stest.Human.set_map_id state
    get_prev_sub_key synk.Stest.Human.get_prev_map_id synk.Stest.Human.get_prev_cx
    synk.Stest.Human.get_prev_cy
edit-Edited o (to_x v) = record {
  id = refl;
  state = refl;
  version = refl;
  prev_sub_key = refl;
  tag_sub = refl;
}
edit-Edited o (to_y v) = record {
  id = refl;
  state = refl;
  version = refl;
  prev_sub_key = refl;
  tag_sub = refl;
}
edit-Edited o (to_cx v) = record {
  id = refl;
  state = refl;
  version = refl;
  prev_sub_key = refl;
  tag_sub = refl;
}
edit-Edited o (to_cy v) = record {
  id = refl;
  state = refl;
  version = refl;
  prev_sub_key = refl;
  tag_sub = refl;
}
edit-Edited o (to_ci v) = record {
  id = refl;
  state = refl;
  version = refl;
  prev_sub_key = refl;
  tag_sub = refl;
}
edit-Edited o (to_map_id v) = record {
  id = refl;
  state = refl;
  version = refl;
  prev_sub_key = refl;
  tag_sub = refl;
}
