-- ===== src/Replica/Unique.antt =====
-- A browser cannot take a text for two messages.
use synk.Base.{true, Text, ◌≡◌, ap}
use synk.Result.{Result, ok}
use synk.Wire.Json.{Json}
use synk.Wire.Message.Content.{IsUnicode, add_texts, mod_texts, rem_texts, all_valid}
use synk.Wire.Message.Unique.{
  IsFaithful, marshal_add-injective, marshal_mod-injective, marshal_rem-injective, add-ne-mod,
  add-ne-rem, mod-ne-rem,
}
use synk.Replica.{Notice, added, changed, removed, text_of}

module _ {D : Type 0} (marshal : D → Result Json) where
  -- All texts of the message, and those of its state or diff, hold characters only.
  abbrev pub IsUnicodeNotice : Notice D → Type 0
  IsUnicodeNotice (added m) = IsUnicode (marshal m.state) (add_texts m)
  IsUnicodeNotice (changed m) = IsUnicode (marshal m.diff) (mod_texts m)
  IsUnicodeNotice (removed m) = all_valid (rem_texts m) ≡ true

module _ {D : Type 0} (marshal : D → Result Json) (faithful : IsFaithful marshal) where
  -- The text of a message determines the message: its kind and all its fields; where all texts of
  -- it hold characters only (json.Marshal makes one character of every byte that is not UTF-8),
  -- and states and diffs with the same JSON are the same.
  pub text_of-injective :
      (m n : Notice D) (t : Text)
      → IsUnicodeNotice marshal m
      → IsUnicodeNotice marshal n
      → text_of marshal m ≡ ok t
      → text_of marshal n ≡ ok t
      → m ≡ n
  text_of-injective (added m) (added n) t um un a b =
      ap added (marshal_add-injective marshal faithful m n t um un a b)
  text_of-injective (added m) (changed n) t um un a b =
      absurd (add-ne-mod marshal faithful m n t um un a b)
  text_of-injective (added m) (removed n) t um un a b =
      absurd (add-ne-rem marshal faithful m n t um un a b)
  text_of-injective (changed m) (added n) t um un a b =
      absurd (add-ne-mod marshal faithful n m t un um b a)
  text_of-injective (changed m) (changed n) t um un a b =
      ap changed (marshal_mod-injective marshal faithful m n t um un a b)
  text_of-injective (changed m) (removed n) t um un a b =
      absurd (mod-ne-rem marshal faithful m n t um un a b)
  text_of-injective (removed m) (added n) t um un a b =
      absurd (add-ne-rem marshal faithful n m t un um b a)
  text_of-injective (removed m) (changed n) t um un a b =
      absurd (mod-ne-rem marshal faithful n m t un um b a)
  text_of-injective (removed m) (removed n) t um un a b =
      ap removed (marshal_rem-injective m n t um un a b)
