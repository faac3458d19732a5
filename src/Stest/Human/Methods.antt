-- ===== src/Stest/Human/Methods.antt =====
-- Human as a `synk.Object`, with the methods of its tag, and the laws of that interface.
use synk.Base.{none, refl, arith, text_eq}
use synk.Result.{ok}
use synk.Tag.{tag_init, tag_get_id, tag_set_sub, version}
use synk.Object.{Object, IsObject}
use synk.Stest.Human.{
  Human, HumanDiff, state, resolve, changed, init, copy, type_key, get_sub_key, get_prev_sub_key,
  marshal_diff, marshal_human,
}
use synk.Stest.Human.Key.{get_sub_key_unchanged}

-- The methods that Human has from its embedded Tag act on the tag.
abbrev pub human_object : Object Human HumanDiff
human_object = record {
  type_key = type_key;
  get_sub_key = get_sub_key;
  get_prev_sub_key = get_prev_sub_key;
  state = state;
  resolve = resolve;
  changed = changed;
  init = init;
  copy = copy;
  version = λ o. version o.tag;
  tag_init = λ t draws o. record o { tag = tag_init t draws o.tag };
  tag_get_id = λ o. tag_get_id o.tag;
  tag_set_sub = λ k o. record o { tag = tag_set_sub k o.tag };
  on_create = none;
  tag_sub = λ o. o.tag.tag_sub;
  marshal = λ d. ok (marshal_diff d);
  to_json = λ o. ok (marshal_human o);
}

-- Human meets the laws of the interface.
pub human_object-IsObject : IsObject human_object
unfolding type_key get_sub_key get_prev_sub_key state resolve changed copy version tag_init
    tag_get_id tag_set_sub
human_object-IsObject = record {
  type_key-resolve = λ o. refl;
  sub_key-resolve = λ o. ground arith;
  prev_sub_key-resolve = λ o. ground arith;
  changed-resolve = λ o. refl;
  version-resolve = λ o. refl;
  tag_get_id-resolve = λ o. refl;
  tag_sub-resolve = λ o. refl;
  unchanged = get_sub_key_unchanged;
  copy = λ o. refl;
  tag_get_id-tag_init = λ t draws o. ground arith;
  tag_sub-tag_init = λ t draws o. ground arith;
  tag_init-SameBody = λ t draws o. ground arith;
  type_key-on_create = λ o. refl;
  tag_sub-tag_set_sub = λ k o. refl;
  tag_get_id-tag_set_sub = λ k o. refl;
  tag_set_sub-SameBody = λ k o. record {
    type_key = refl;
    sub_key = refl;
    prev_sub_key = refl;
    state = refl;
    changed = refl;
    version = refl;
  };
}
