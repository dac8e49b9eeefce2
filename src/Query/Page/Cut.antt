-- ===== src/Query/Page/Cut.antt =====
-- A cursor at the last key of the first results leaves the others.
use kora_db.Base.{
  ◌≡◌, refl, ◌∙◌, true, false, Bytes, List, [], ◌∷◌, ◌++◌, arith, bytes_compare, bytes_compare_refl,
  bytes_compare-flip, bytes_compare_trans, Ordering,
}
use kora_db.Storage.Laws.{IsBelow, IsSorted}
use kora_db.Query.Page.{Match, PageCursor, before_cursor, is_blank}
use kora_db.Query.Page.Select.{Found, after, last_of}
use kora_db.Query.Page.Order.{HasKeys}

pub after-blank :
    (cursor : PageCursor) (found : List Found)
    → is_blank cursor.last_key ≡ true
    → after cursor found ≡ found
unfolding after before_cursor
after-blank cursor [] h = refl
after-blank cursor ((k, m) ∷ found) h = rw (h, after-blank cursor found h) refl

after-below :
    (cursor : PageCursor) (found : List Found)
    → IsBelow cursor.last_key found
    → after cursor found ≡ found
unfolding after before_cursor
after-below cursor [] b = refl
after-below cursor ((k, m) ∷ found) b =
    ground (arith, after-below cursor found b.1, bytes_compare-flip cursor.last_key k, b.0)

IsBelow-trans :
    (j k : Bytes) (found : List Found)
    → bytes_compare j k ≡ Ordering.lt
    → IsBelow k found
    → IsBelow j found
IsBelow-trans j k [] h b = tt
IsBelow-trans j k ((i, m) ∷ found) h b =
    (bytes_compare_trans j k i h b.0, IsBelow-trans j k found h b.1)

IsBelow-append : (k : Bytes) (pre suf : List Found) → IsBelow k (pre ++ suf) → IsBelow k suf
IsBelow-append k [] suf b = b
IsBelow-append k (x ∷ pre) suf b = IsBelow-append k pre suf b.1

-- The last key of a sorted list is its greatest.
below-last_of :
    (j k : Bytes) (found suf : List Found)
    → bytes_compare j k ≡ Ordering.lt
    → IsBelow j (found ++ suf)
    → bytes_compare j (last_of k found) ≡ Ordering.lt
below-last_of j k [] suf h b = h
below-last_of j k ((i, m) ∷ found) suf h b = below-last_of j i found suf b.0 b.1

last_of-IsBelow :
    (k : Bytes) (pre suf : List Found)
    → IsBelow k (pre ++ suf)
    → IsSorted (pre ++ suf)
    → IsBelow (last_of k pre) suf
last_of-IsBelow k [] suf b s = b
last_of-IsBelow k ((j, m) ∷ pre) suf b s = last_of-IsBelow j pre suf s.0 s.1

-- A result before the cursor's key, or at it, is passed over.
after-pass :
    (cursor : PageCursor) (k : Bytes) (m : Match) (found : List Found)
    → is_blank cursor.last_key ≡ false
    → before_cursor cursor k ≡ true
    → after cursor ((k, m) ∷ found) ≡ after cursor found
unfolding after
after-pass cursor k m found n h = rw h refl

before_at :
    (cursor : PageCursor) (k : Bytes)
    → is_blank cursor.last_key ≡ false
    → cursor.last_key ≡ k
    → before_cursor cursor k ≡ true
unfolding before_cursor
before_at cursor k n e = rw (n, e, bytes_compare_refl k) refl

before_lt :
    (cursor : PageCursor) (k : Bytes)
    → is_blank cursor.last_key ≡ false
    → bytes_compare k cursor.last_key ≡ Ordering.lt
    → before_cursor cursor k ≡ true
unfolding before_cursor
before_lt cursor k n h = rw (n, h) refl

after-prefix :
    (cursor : PageCursor) (k : Bytes) (m : Match) (pre suf : List Found)
    → cursor.last_key ≡ last_of k pre
    → is_blank cursor.last_key ≡ false
    → IsSorted (((k, m) ∷ pre) ++ suf)
    → after cursor (((k, m) ∷ pre) ++ suf) ≡ suf
after-prefix cursor k m [] suf e n s =
    after-pass cursor k m suf n (before_at cursor k n e) ∙ after-below cursor suf (rw e s.0)
after-prefix cursor k m ((j, w) ∷ pre) suf e n s =
    after-pass cursor k m (((j, w) ∷ pre) ++ suf) n
      (before_lt cursor k n (rw e (below-last_of k j pre suf s.0.0 s.0.1)))
    ∙ after-prefix cursor j w pre suf e n s.1

last_of-full :
    (k : Bytes) (found suf : List Found)
    → is_blank k ≡ false
    → HasKeys (found ++ suf)
    → is_blank (last_of k found) ≡ false
last_of-full k [] suf n h = n
last_of-full k ((j, m) ∷ found) suf n h = last_of-full j found suf h.0 h.1

-- The cursor at the last of the first results, or the empty one where there are none.
pub after-last_of :
    (cursor : PageCursor) (pre suf : List Found)
    → cursor.last_key ≡ last_of [] pre
    → IsSorted (pre ++ suf)
    → HasKeys (pre ++ suf)
    → after cursor (pre ++ suf) ≡ suf
after-last_of cursor [] suf e s h = after-blank cursor suf (rw e refl)
after-last_of cursor ((k, m) ∷ pre) suf e s h =
    after-prefix cursor k m pre suf e (rw e (last_of-full k pre suf h.0 h.1)) s

pub last_of-append :
    (k : Bytes) (xs ys : List Found) → last_of k (xs ++ ys) ≡ last_of (last_of k xs) ys
last_of-append k [] ys = refl
last_of-append k ((j, m) ∷ xs) ys = last_of-append j xs ys

-- Of a list that is not empty the last key is its own.
pub last_of-cons :
    (j k : Bytes) (x : Found) (found : List Found) → last_of j (x ∷ found) ≡ last_of k (x ∷ found)
last_of-cons j k x found = refl

-- It is not blank.
pub last_of-HasKeys :
    (k : Bytes) (x : Found) (pre suf : List Found)
    → HasKeys ((x ∷ pre) ++ suf)
    → is_blank (last_of k (x ∷ pre)) ≡ false
last_of-HasKeys k x pre suf h = last_of-full x.0 pre suf h.0 h.1
