-- ===== src/ReadModel/Inventory.antt =====
-- inventory_projector.py: what a redelivered grant of an item does to the read-model.
use auth_profile_service.Common.{
  ◌+◌, String, ◌≡◌, Bool, ◌&&◌, some, List, arith, ◌==◌, eq_refl, select, select-append, length,
  length-append, Option-cases, inl, inr,
}
use auth_profile_service.Json.{Fields}
use auth_profile_service.Auth.Errors.{ok}
use auth_profile_service.Profile.{OwnedItem}
use auth_profile_service.Database.World.{ProfileRow, OwnedItemRow, World, Draw, ◌>>=◌}
use auth_profile_service.Database.Profiles.{
  find_profile, insert_if_missing, create_if_missing, get_by_user_id, add_owned_item, check_profile,
  append_item,
}
use auth_profile_service.ReadModel.{required_text, optional_text, project_inventory}
use auth_profile_service.ReadModel.Library.{find_profile-insert}

abbrev is_item : String → String → OwnedItemRow → Bool
is_item user_id item_id i = i.user_id == user_id && i.item_id == item_id

-- The rows of an item that an account owns.
abbrev pub items : String → String → World → List OwnedItemRow
items user_id item_id w = select (is_item user_id item_id) w.owned_items

abbrev item_of : Draw → (user_id item_id game_id : String) → OwnedItem
item_of d user_id item_id game_id = record {
  id = d.uuid 0;
  user_id = user_id;
  item_id = item_id;
  game_id = game_id;
  acquired_at = d.now;
}

items-append :
    (i : OwnedItem) (w : World)
    → length (items i.user_id i.item_id (append_item i w).1)
      ≡ length (items i.user_id i.item_id w) + 1
unfolding append_item select
items-append i w = rw (
  select-append (is_item i.user_id i.item_id) w.owned_items _,
  eq_refl i.user_id,
  eq_refl i.item_id,
  length-append (items i.user_id i.item_id w) _,
)

add_item :
    (i : OwnedItem) (w : World) (p : ProfileRow)
    → find_profile i.user_id w.profiles ≡ some p
    → add_owned_item i w ≡ append_item i w
unfolding add_owned_item ◌>>=◌ check_profile append_item
add_item i w p f = rw (f, check_profile)

module _ (event : Fields) (user_id name item_id game_id : String) where
  -- The event carries the texts.
  abbrev pub IsGranted : Type 0
  IsGranted =
      (required_text "user_id" event ≡ ok user_id)
      × (optional_text "display_name" event ≡ ok name)
      × (required_text "item_id" event ≡ ok item_id)
      × (required_text "game_id" event ≡ ok game_id)

  abbrev prepared : Draw → World → World
  prepared d w = record w {
    db = record w.db { profiles = insert_if_missing d.now user_id name w.profiles };
  }

  inventory_lem :
      (d : Draw) (w : World)
      → IsGranted
      → project_inventory d event w ≡ append_item (item_of d user_id item_id game_id) (prepared d w)
  unfolding project_inventory ◌>>=◌ create_if_missing get_by_user_id
  inventory_lem d w h =
      elim (Option-cases (find_profile user_id (insert_if_missing d.now user_id name w.profiles))) [
        | inl n ↦ elim (find_profile-insert d.now user_id name w.profiles n) [ ]
        | inr (p, f) ↦
            simp (h.0, h.1, h.2, h.3)
              (add_item (item_of d user_id item_id game_id) (prepared d w) p f)
      ]

  counted :
      (d : Draw) (w : World)
      → IsGranted
      → length (items user_id item_id (project_inventory d event w).1)
        ≡ length (items user_id item_id w) + 1
  counted d w h =
      rw (inventory_lem d w h) (items-append (item_of d user_id item_id game_id) (prepared d w))

  -- Two deliveries of one grant of an item, which carries the texts that the columns take, add two
  -- rows of that item for that account.
  pub inventory_twice :
      (d d' : Draw) (w : World)
      → IsGranted
      → let w' = (project_inventory d event w).1 in
        length (items user_id item_id (project_inventory d' event w').1)
        ≡ length (items user_id item_id w) + 2
  inventory_twice d d' w h =
      omega (arith, counted d w h, counted d' (project_inventory d event w).1 h)
