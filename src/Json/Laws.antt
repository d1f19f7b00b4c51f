-- ===== src/Json/Laws.antt =====
-- How reading an object sees the writes, deletions and spreads made to it.
use react_native_pushy.Common.{String, false, ◌||◌, ◌&&◌, not, ◌==◌, if◌then◌else◌}
use react_native_pushy.Common.{◌≡◌, refl, arith, eq_iff}
use react_native_pushy.Json.{Value, undef, Fields, no_fields, entry, get, has, put, del, merge}
use react_native_pushy.Json.{HasDistinctKeys}

pub get-put :
    (j k : String) (v : Value) (fs : Fields) → get j (put k v fs) ≡ (if k == j then v else get j fs)
unfolding get put
get-put j k v no_fields = refl
get-put j k v (entry i w fs) = ground (arith, eq_iff k j, eq_iff i k, eq_iff i j, get-put j k v fs)

pub has-put : (j k : String) (v : Value) (fs : Fields) → has j (put k v fs) ≡ ((k == j) || has j fs)
unfolding has put
has-put j k v no_fields = refl
has-put j k v (entry i w fs) = ground (arith, eq_iff k j, eq_iff i k, eq_iff i j, has-put j k v fs)

pub get-del : (j k : String) (fs : Fields) → get j (del k fs) ≡ (if k == j then undef else get j fs)
unfolding get del
get-del j k no_fields = ground arith
get-del j k (entry i w fs) = ground (arith, eq_iff k j, eq_iff i k, eq_iff i j, get-del j k fs)

pub has-del : (j k : String) (fs : Fields) → has j (del k fs) ≡ (not (k == j) && has j fs)
unfolding has del
has-del j k no_fields = ground arith
has-del j k (entry i w fs) = ground (arith, eq_iff k j, eq_iff i k, eq_iff i j, has-del j k fs)

pub get-eq-undef : (j : String) (fs : Fields) → has j fs ≡ false → get j fs ≡ undef
unfolding get has
get-eq-undef j no_fields h = refl
get-eq-undef j (entry i w fs) h = ground (arith, get-eq-undef j fs)

-- The members of the later object win.
pub get-merge :
    (j : String) (a b : Fields)
    → HasDistinctKeys b
    → get j (merge a b) ≡ (if has j b then get j b else get j a)
unfolding merge get has
get-merge j a no_fields d = refl
get-merge j a (entry k v b) (fresh, d) =
    ground (arith, get-merge j (put k v a) b d, get-put j k v a, eq_iff k j)

pub has-merge : (j : String) (a b : Fields) → has j (merge a b) ≡ (has j b || has j a)
unfolding merge has
has-merge j a no_fields = refl
has-merge j a (entry k v b) = ground (arith, has-merge j (put k v a) b, has-put j k v a)

pub put-HasDistinctKeys :
    (k : String) (v : Value) (fs : Fields) → HasDistinctKeys fs → HasDistinctKeys (put k v fs)
unfolding put has
put-HasDistinctKeys k v no_fields d = ground arith
put-HasDistinctKeys k v (entry i w fs) (fresh, d) =
    ground (arith, put-HasDistinctKeys k v fs d, has-put i k v fs, eq_iff i k, eq_iff k i)

pub del-HasDistinctKeys :
    (k : String) (fs : Fields) → HasDistinctKeys fs → HasDistinctKeys (del k fs)
unfolding del
del-HasDistinctKeys k no_fields d = tt
del-HasDistinctKeys k (entry i w fs) (fresh, d) =
    ground (arith, del-HasDistinctKeys k fs d, has-del i k fs)

pub ruleset object_laws = (get-put, has-put, get-del, has-del, has-merge)

pub del_of_missing : (k : String) (fs : Fields) → has k fs ≡ false → del k fs ≡ fs
unfolding del has
del_of_missing k no_fields h = refl
del_of_missing k (entry i w fs) h = ground (arith, del_of_missing k fs)
