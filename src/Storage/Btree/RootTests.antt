-- ===== src/Storage/Btree/RootTests.antt =====
-- src/storage/btree.rs: an insertion into a root that is a full leaf, over the store of the tests.
use kssql.Common.{◌≡◌, ◌≢◌, refl, some, [], ◌∷◌, Bytes, arith}
use kssql.Common.Order.{bytes_lt}
use kssql.Common.Result.{ok}
use kssql.Storage.Btree.Tree.{insert, get_loop}
use kssql.Storage.Btree.Tree.RootInsertion.{get_loop-insert_full_root}
use kssql.Storage.Btree.Tests.{test_store, is_store, three, three-IsLeaf}

done : (insert test_store 2 0 (2 ∷ []) (21 ∷ []) (three ∷ [])).0 ≡ ok tt
unfolding insert bytes_lt
done = refl

get_loop-insert_full_root_example :
    (get_loop test_store 2 (insert test_store 2 0 (2 ∷ []) (21 ∷ []) (three ∷ [])).1 (2 ∷ []) 0
      ≡ ok (some (21 ∷ [])))
    × ((j : Bytes)
        → j ≢ 2 ∷ []
        → get_loop test_store 2 (insert test_store 2 0 (2 ∷ []) (21 ∷ []) (three ∷ [])).1 j 0
          ≡ get_loop test_store 2 (three ∷ []) j 0)
get_loop-insert_full_root_example =
    get_loop-insert_full_root test_store (λ nodes. Unit) is_store (three ∷ []) 0 three (2 ∷ [])
      (21 ∷ []) 0 tt (omega arith) (omega arith) refl refl refl three-IsLeaf (omega arith) refl refl
      done
