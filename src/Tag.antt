-- ===== src/Tag.antt =====
-- Tag.go: the fields that every object carries for the library.
use synk.Base.{ℕ, Text, [], ◌==◌, text_eq, if◌then◌else◌}
use synk.Id.{new_id}

pub record Tag : Type 0 where
  pub tag_id : Text
  pub tag_sub : Text
  pub tag_type : Text
  pub v : ℕ

-- The zero value.
abbrev pub zero_tag : Tag
zero_tag = record { tag_id = []; tag_sub = []; tag_type = []; v = 0 }

-- `draws` are the results of `rand.Intn` that `NewID` would take.
unfoldable pub tag_init : Text → (ℕ → ℕ) → Tag → Tag
tag_init type_key draws t =
    let typed : Tag = if t.tag_type == [] then record t { tag_type = type_key } else t in
    if typed.tag_id == [] then record typed { tag_id = new_id draws } else typed

unfoldable pub tag_get_id : Tag → Text
tag_get_id t = t.tag_id

unfoldable pub tag_set_sub : Text → Tag → Tag
tag_set_sub key t = record t { tag_sub = key }

unfoldable pub version : Tag → ℕ
version t = t.v
