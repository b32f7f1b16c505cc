-- ===== src/Tests/Caches.antt =====
-- Instances of the theorems on the cache.
use ngrok.Prelude.{ℕ, true, ◌≡◌, refl, some, arith, length}
use mathlib.Core.List.{reverse}
use ngrok.Prelude.Maps.{get}
use ngrok.Prelude.Text.{Text, text, text_dec}
use ngrok.Cache.Lru.{LruCache, new_lru_cache, get_value, set_value, load_items, save_items}
use ngrok.Cache.Lru.View.{view, IsValid, keep}
use ngrok.Cache.Lru.Front.{Shows, touch}
use ngrok.Cache.Lru.Refine.{after_get, new_lru_cache-Shows, get_value_lem, set_value_lem}
use ngrok.Cache.Lru.Reload.{load_items-save_items}

abbrev size : Text → ℕ
size v = length v

abbrev bare : LruCache Text Text
bare = new_lru_cache 10

bare-IsValid : IsValid text_dec size bare
bare-IsValid = (new_lru_cache-Shows text_dec size 10 (omega arith)).valid

-- A cache with one entry.
filled :
    (c : LruCache Text Text) × (set_value text_dec size 1 (text "k") (text "value") bare ≡ some c)
    × Shows text_dec size c bare.capacity
        (keep size bare.capacity (touch text_dec size (text "k") (text "value") (view bare)))
filled = set_value_lem text_dec size 1 (text "k") bare bare-IsValid (text "value") (omega arith)

abbrev full : LruCache Text Text
full = filled.0

set_value_lem_example :
    (c : LruCache Text Text) × (set_value text_dec size 2 (text "j") (text "other!") full ≡ some c)
    × Shows text_dec size c full.capacity
        (keep size full.capacity (touch text_dec size (text "j") (text "other!") (view full)))
set_value_lem_example =
    set_value_lem text_dec size 2 (text "j") full filled.2.valid (text "other!") (omega arith)

get_value_lem_example :
    (c : LruCache Text Text) × (get_value text_dec 2 (text "k") full
      ≡ some (c, get text_dec (text "k") (view full)))
    × Shows text_dec size c full.capacity (
        after_get text_dec size 2
          (text "k")
          full
          filled.2.valid
          (get text_dec (text "k") (view full)))
get_value_lem_example = get_value_lem text_dec size 2 (text "k") full filled.2.valid

load_items-save_items_example :
    (c : LruCache Text Text) × (load_items text_dec size 2
        (λ l. some l)
        (save_items (λ l. l) full)
        (new_lru_cache full.capacity)
      ≡ some (c, true))
    × Shows text_dec size c full.capacity (reverse (view full))
load_items-save_items_example =
    load_items-save_items text_dec size 2 full (λ l. l) (λ l. some l) (λ l. refl) filled.2.valid
