-- ===== src/Tests/Deadlines.antt =====
-- src/store.cpp at a store with one key, which has a deadline.
use epochkv.Prelude.{◌≡◌, none, some, true, false, Bytes, str, bytes_eq, if◌then◌else◌}
use epochkv.Prelude.Int.{ℤ, pos, ltb_ℤ}
use epochkv.Store.{Store, no_eviction, is_some, new, get, set, del, set_expire}
use epochkv.Store.Visible.{IsValid, visible, seen_at, is_due}
use epochkv.Store.Laws.{new-IsValid, visible-get, visible-set, visible-del, visible-set_expire}

abbrev blank : Store
blank = new 0 no_eviction (pos 100)

abbrev filled : Store
filled = set blank (str "k") (str "v") false

filled-IsValid : IsValid filled
filled-IsValid =
    (visible-set blank (new-IsValid 0 no_eviction (pos 100)) (str "k") (str "v") false).0

abbrev dated : Store
dated = (set_expire filled (str "k") (pos 150)).0

dated-IsValid : IsValid dated
dated-IsValid = (visible-set_expire filled filled-IsValid (str "k") (pos 150)).1

visible-get_example :
    ((get dated (str "k")).1 ≡ visible dated (str "k"))
    × IsValid (get dated (str "k")).0
    × ((q : Bytes) → visible (get dated (str "k")).0 q ≡ visible dated q)
visible-get_example = visible-get dated dated-IsValid (str "k")

visible-set_example :
    IsValid (set dated (str "k") (str "w") true)
    × ((q : Bytes)
        → visible (set dated (str "k") (str "w") true) q
          ≡ (if bytes_eq (str "k") q then some (str "w") else visible dated q))
visible-set_example = visible-set dated dated-IsValid (str "k") (str "w") true

visible-del_example :
    ((del dated (str "k")).1 ≡ is_some (visible dated (str "k")))
    × IsValid (del dated (str "k")).0
    × ((q : Bytes)
        → visible (del dated (str "k")).0 q
          ≡ (if bytes_eq (str "k") q then none else visible dated q))
visible-del_example = visible-del dated dated-IsValid (str "k")

visible-set_expire_example :
    ((set_expire dated (str "k") (pos 200)).1 ≡ is_some (visible dated (str "k")))
    × IsValid (set_expire dated (str "k") (pos 200)).0
    × ((set_expire dated (str "k") (pos 200)).0.now ≡ dated.now)
    × ((now : ℤ)
        → ltb_ℤ now dated.now ≡ false
        → (q : Bytes)
        → seen_at now (set_expire dated (str "k") (pos 200)).0 q ≡ (
            if bytes_eq (str "k") q
            then if is_due now (some (pos 200)) then none else visible dated (str "k")
            else seen_at now dated q))
visible-set_expire_example = visible-set_expire dated dated-IsValid (str "k") (pos 200)
