-- ===== src/Service.antt =====
-- The services that the library calls and does not implement: a MongoDB collection, and PUBLISH of
-- Redis. `W` is the state of both, and `Doc` a document. What they promise is `IsService`.
pub mod Memory
use synk.Base.{
  Text, Bool, true, Option, none, some, List, [], ◌∷◌, ◌++◌, ◌≡◌, ◌≢◌, ◌↔◌, ◌⊎◌, ◌==◌, ◌||◌, false,
  text_eq, if◌then◌else◌,
}
use synk.Result.{Result, ok, Error, IsOk}

pub record Service (W Doc : Type 0) : Type 0 where
  -- The calls of mgo's Collection: Insert, UpdateId, RemoveId, and Find on `sub` with All.
  pub insert : Doc → W → Error × W
  pub update_id : Text → Doc → W → Error × W
  pub remove_id : Text → W → Error × W
  pub find : List Text → W → Result (List Doc) × W
  -- PUBLISH channel message
  pub publish : Text → Text → W → Error × W
  -- What can be seen of the state: the document with an `_id`, and the messages published so far.
  pub document : Text → W → Option Doc
  pub published : W → List (Text × Text)
  -- The fields `_id` and `sub` of a document.
  pub id_of : Doc → Text
  pub sub_of : Doc → Text

-- The value is in the list.
abbrev pub In : {A : Type 0} → A → List A → Type 0
In a [] = ⊥
In a (x ∷ xs) = (x ≡ a) ⊎ In a xs

-- `$in`
abbrev pub is_in : Text → List Text → Bool
is_in k [] = false
is_in k (j ∷ ks) = k == j || is_in k ks

-- Documented behaviour: a call that returns no error has done what it says, and nothing else. Of a
-- call that returns an error nothing is known, but that MongoDB publishes nothing and PUBLISH
-- writes no document.
pub record IsService {W Doc : Type 0} (S : Service W Doc) : Type 0 where
  -- `_id` is unique.
  pub insert_fresh : (d : Doc) (w : W) → (S.insert d w).0 ≡ none → S.document (S.id_of d) w ≡ none
  pub document-insert :
      (d : Doc) (w : W) (k : Text)
      → (S.insert d w).0 ≡ none
      → S.document k (S.insert d w).1 ≡ (if k == S.id_of d then some d else S.document k w)
  pub update_id_known :
      (k : Text) (d : Doc) (w : W) → (S.update_id k d w).0 ≡ none → S.document k w ≢ none
  pub document-update_id :
      (k : Text) (d : Doc) (w : W) (j : Text)
      → (S.update_id k d w).0 ≡ none
      → S.document j (S.update_id k d w).1 ≡ (if j == k then some d else S.document j w)
  pub remove_id_known : (k : Text) (w : W) → (S.remove_id k w).0 ≡ none → S.document k w ≢ none
  pub document-remove_id :
      (k : Text) (w : W) (j : Text)
      → (S.remove_id k w).0 ≡ none
      → S.document j (S.remove_id k w).1 ≡ (if j == k then none else S.document j w)
  pub in-find :
      (ks : List Text) (w : W) (ds : List Doc) (d : Doc)
      → (S.find ks w).0 ≡ ok ds
      → In d ds ↔ ((S.document (S.id_of d) w ≡ some d) × (is_in (S.sub_of d) ks ≡ true))
  pub published-publish :
      (c m : Text) (w : W)
      → (S.publish c m w).0 ≡ none
      → S.published (S.publish c m w).1 ≡ S.published w ++ (c, m) ∷ []
  pub document-publish :
      (c m : Text) (w : W) (k : Text) → S.document k (S.publish c m w).1 ≡ S.document k w
  pub published-insert : (d : Doc) (w : W) → S.published (S.insert d w).1 ≡ S.published w
  pub published-update_id :
      (k : Text) (d : Doc) (w : W) → S.published (S.update_id k d w).1 ≡ S.published w
  pub published-remove_id : (k : Text) (w : W) → S.published (S.remove_id k w).1 ≡ S.published w

-- The services do what they are asked, unless MongoDB must refuse an `_id` that is taken or unknown.
pub record IsReliable {W Doc : Type 0} (S : Service W Doc) : Type 0 where
  pub inserts : (d : Doc) (w : W) → S.document (S.id_of d) w ≡ none → (S.insert d w).0 ≡ none
  pub updates :
      (k : Text) (d : Doc) (w : W)
      → S.document k w ≢ none
      → S.id_of d ≡ k
      → (S.update_id k d w).0 ≡ none
  pub removes : (k : Text) (w : W) → S.document k w ≢ none → (S.remove_id k w).0 ≡ none
  pub finds : (ks : List Text) (w : W) → IsOk (S.find ks w).0
  pub publishes : (c m : Text) (w : W) → (S.publish c m w).0 ≡ none
