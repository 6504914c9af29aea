-- ===== src/HashTable/Binding.antt =====
-- The writes of the table, each as one change of the lookups.
use epochkv.Prelude.{◌≡◌, Bytes, Option, none, some, bytes_eq, if◌then◌else◌}
use epochkv.HashTable.{HashTable, find, insert, put, del}
use epochkv.HashTable.Valid.{IsValid, find-view}
use epochkv.HashTable.Map.{put-Inserts}
use epochkv.HashTable.Laws.{find-insert, find-del}

module _ {V : Type 0} where
  pub record Binds (t : HashTable V) (key : Bytes) (v : Option V) (t' : HashTable V) : Type 0 where
    pub valid : IsValid t'
    pub reads : (q : Bytes) → find t' q ≡ (if bytes_eq key q then v else find t q)

  module _ (t : HashTable V) (valid : IsValid t) (key : Bytes) where
    pub insert-Binds : (value : V) → Binds t key (some value) (insert t key value).0
    insert-Binds value =
        let (v, r, _, _) = find-insert t valid key value in record { valid = v; reads = r }

    pub del-Binds : Binds t key none (del t key).0
    del-Binds = let (v, r, _, _) = find-del t valid key in record { valid = v; reads = r }

    pub put-Binds : (value : V) → Binds t key (some value) (put t key value).0
    put-Binds value =
        let i = put-Inserts t valid key value in
        record {
          valid = i.updates.valid;
          reads = λ q. rw (find-view _ q i.updates.valid, find-view t q valid) (i.updates.reads q);
        }
