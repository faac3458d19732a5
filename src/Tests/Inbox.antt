-- ===== src/Tests/Inbox.antt =====
-- Messages from a browser, and IDs.
use synk.Base.{
  ℕ, Text, codes, ℤ, pos, true, [], ◌∷◌, ◌++◌, ◌==◌, text_eq, if◌then◌else◌, length, map, ◌≡◌, refl,
  arith,
}
use synk.Base.Index.{Lacks}
use mathlib.Core.List.{filter_map}
use synk.Result.{value, Result, ok, err}
use synk.Client.{Message, custom}
use synk.Inbox.{Unmarshal, message_from_bytes, read_loop, read_loop_lem}
use synk.Id.{id_len, fill, new_id, get_id}
use synk.Id.Shape.{IsForeign, new_id_lem}

-- A text is its own method, and `!` is no JSON.
abbrev json : Unmarshal
json = record {
  method = λ t. if t == codes "!" then err (codes "invalid") else ok t;
  update_subscription = λ t. ok (record { map_id = []; add = t ∷ []; remove = [] });
}

abbrev wave : Message
wave = custom (record { method = codes "wave"; raw = codes "wave" })

waves : message_from_bytes json (codes "wave") ≡ ok wave
unfolding message_from_bytes text_eq
waves = refl

read_loop_lem_example :
    let reads = codes "!" ∷ codes "wave" ∷ [] in
    let c = read_loop json (map ok reads ++ err (codes "closed") ∷ []) in
    (c.closed ≡ true) × (c.messages ≡ filter_map (λ raw. value (message_from_bytes json raw)) reads)
read_loop_lem_example = read_loop_lem json (codes "!" ∷ codes "wave" ∷ []) (codes "closed") []

abbrev draws : ℕ → ℕ
draws i = 61

new_id_lem_example :
    (length (new_id draws) ≡ id_len)
    × (new_id draws ≡ fill draws 0 15 ++ b'!' ∷ [])
    × ((c : ℕ) → IsForeign c → Lacks c (new_id draws))
new_id_lem_example = new_id_lem draws (λ i. omega arith)

abbrev counter : Text → Result ℤ
counter key = ok (pos 71)

get_id_test : get_id counter (codes "c:h") ≡ ok (codes "1z")
unfolding get_id
get_id_test = refl
