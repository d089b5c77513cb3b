-- ===== src/Status/Map.antt =====
-- `HashMap<u16, PacketStatus<T>>` of src/actors/actions/status.rs as an association list, with the
-- operations that the actor uses.
use actix_mqtt_client.Common.{
  ℕ, Bool, true, false, List, [], ◌∷◌, Option, none, some, ◌==◌, if◌then◌else◌, ◌≡◌, refl, arith,
  is_some,
}
use actix_mqtt_client.Message.{PacketStatus}

abbrev pub StatusMap : Type 0 → Type 0
StatusMap T = List (ℕ × PacketStatus T)

module _ {T : Type 0} where
  unfoldable pub get : ℕ → StatusMap T → Option (PacketStatus T)
  get id [] = none
  get id ((k, s) ∷ map) = if k == id then some s else get id map

  unfoldable pub insert : ℕ → PacketStatus T → StatusMap T → StatusMap T
  insert id status [] = (id, status) ∷ []
  insert id status ((k, s) ∷ map) =
      if k == id then (id, status) ∷ map else (k, s) ∷ insert id status map

  unfoldable pub remove : ℕ → StatusMap T → StatusMap T
  remove id [] = []
  remove id ((k, s) ∷ map) = if k == id then map else (k, s) ∷ remove id map

  unfoldable pub contains_key : ℕ → StatusMap T → Bool
  contains_key id [] = false
  contains_key id ((k, s) ∷ map) = if k == id then true else contains_key id map

  -- `len() == 0`
  unfoldable pub is_empty : StatusMap T → Bool
  is_empty [] = true
  is_empty (e ∷ map) = false

  -- No key stands twice.
  abbrev pub HasDistinctKeys : StatusMap T → Type 0
  HasDistinctKeys [] = Unit {0}
  HasDistinctKeys ((k, s) ∷ map) = (get k map ≡ none) × HasDistinctKeys map

  pub get-insert :
      (j id : ℕ) (status : PacketStatus T) (map : StatusMap T)
      → get j (insert id status map) ≡ (if id == j then some status else get j map)
  unfolding get insert
  get-insert j id status [] = ground arith
  get-insert j id status ((k, s) ∷ map) = ground (arith, get-insert j id status map)

  pub get-remove :
      (j id : ℕ) (map : StatusMap T)
      → HasDistinctKeys map
      → get j (remove id map) ≡ (if id == j then none else get j map)
  unfolding get remove
  get-remove j id [] d = ground arith
  get-remove j id ((k, s) ∷ map) d = ground (arith, get-remove j id map d.1)

  pub contains_key-get : (id : ℕ) (map : StatusMap T) → contains_key id map ≡ is_some (get id map)
  unfolding contains_key get
  contains_key-get id [] = refl
  contains_key-get id ((k, s) ∷ map) = ground (arith, contains_key-get id map)

  pub insert-HasDistinctKeys :
      (id : ℕ) (status : PacketStatus T) (map : StatusMap T)
      → HasDistinctKeys map
      → HasDistinctKeys (insert id status map)
  unfolding insert get
  insert-HasDistinctKeys id status [] d = (refl, tt)
  insert-HasDistinctKeys id status ((k, s) ∷ map) d =
      ground (arith, insert-HasDistinctKeys id status map d.1, get-insert k id status map)

  pub remove-HasDistinctKeys :
      (id : ℕ) (map : StatusMap T) → HasDistinctKeys map → HasDistinctKeys (remove id map)
  unfolding remove get
  remove-HasDistinctKeys id [] d = tt
  remove-HasDistinctKeys id ((k, s) ∷ map) d =
      ground (arith, remove-HasDistinctKeys id map d.1, get-remove k id map d.1)

  -- The map is empty exactly if no identifier has a status.
  pub is_empty→get : (map : StatusMap T) → is_empty map ≡ true → (j : ℕ) → get j map ≡ none
  unfolding is_empty get
  is_empty→get [] h j = refl
  is_empty→get (e ∷ map) h j = cc

  pub get→is_empty : (map : StatusMap T) → ((j : ℕ) → get j map ≡ none) → is_empty map ≡ true
  unfolding is_empty get
  get→is_empty [] h = refl
  get→is_empty ((k, s) ∷ map) h = ground (arith, h k)
