-- ===== src/Stest/Orc/Diff.antt =====
-- The getters of orcDiff, and String of Orc.
use synk.Base.{Text, codes, Option, ◌++◌, text_eq, ◌≡◌}
use synk.Tag.{tag_get_id}
use synk.Stest.Human.Diff.{news, field}
use synk.Stest.Orc.{
  Orc, OrcDiff, resolve, get_id as orc_id, get_sub_key as orc_sub_key, get_name as orc_name,
  get_prev_id, get_prev_sub_key, get_prev_name,
}
use synk.Stest.Orc.Edits.{IsMinimal}

unfoldable pub get_id : OrcDiff → Option Text
get_id o = o.id

unfoldable pub get_sub_key : OrcDiff → Option Text
get_sub_key o = o.sub_key

unfoldable pub get_name : OrcDiff → Option Text
get_name o = o.name

-- `fmt.Sprintf("Orc (%s) named %s", …)`
unfoldable pub to_string : Orc → Text
unfolding tag_get_id
to_string o = codes "Orc (" ++ (tag_get_id o.tag ++ (codes ") named " ++ o.name))

-- The diff that Resolve returns holds the fields that change, with their new values, and no other,
-- if no setter has left a value in it that the field has already.
pub get-resolve :
    (o : Orc)
    → IsMinimal o
    → let d = (resolve o).0 in
      (get_id d ≡ news (get_prev_id o) (orc_id o))
      × (get_sub_key d ≡ news (get_prev_sub_key o) (orc_sub_key o))
      × (get_name d ≡ news (get_prev_name o) (orc_name o))
unfolding resolve get_id get_sub_key get_name orc_id orc_sub_key orc_name get_prev_id
    get_prev_sub_key get_prev_name
get-resolve o h = (
  field o.diff.id o.id h.id,
  field o.diff.sub_key o.sub_key h.sub_key,
  field o.diff.name o.name h.name,
)
