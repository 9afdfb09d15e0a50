-- ===== src/Rename/Lanes.antt =====
-- Where the 64 registers are, after the two lanes of a bundle or the two commits of a cycle.
use rv64_ooo_core.Prelude.{
  ℕ, ◌+◌, ◌-◌, ◌≤◌, ◌<◌, ◌≡◌, ◌≢◌, refl, subst, arith, one_if, if◌then◌else◌, Bool, true, false,
  List, ◌++◌, length, get_or, drop, length-drop, drop-drop, append_assoc,
}
use rv64_ooo_core.Prelude.Occurrences.{contains, erase, contains-insert, contains-erase}
use rv64_ooo_core.Rename.FreeList.{one_of}
use rv64_ooo_core.Rename.Partition.{Owns, lane_Owns, give_Owns, out_after, map_after}

abbrev pub gives : Bool → ℕ → List ℕ → List ℕ
gives b v q = if b then erase v q else q

pub contains-out_after :
    (b : Bool) (m q : List ℕ) (rd p : ℕ)
    → contains p q ≡ true
    → contains p (out_after b m q rd) ≡ true
contains-out_after true m q rd p h = contains-insert p (get_or m rd 0) q h
contains-out_after false m q rd p h = h

contains-gives :
    (b : Bool) (p v : ℕ) (q : List ℕ)
    → contains p q ≡ true
    → (b ≡ true → p ≢ v)
    → contains p (gives b v q) ≡ true
contains-gives true p v q h e = contains-erase p v q h (e refl)
contains-gives false p v q h e = h

-- The two commits after another.
pub gives-Owns :
    (m f q : List ℕ) (b0 b1 : Bool) (v0 v1 : ℕ)
    → Owns m f q
    → (b0 ≡ true → contains v0 q ≡ true)
    → (b1 ≡ true → contains v1 q ≡ true)
    → (b0 ≡ true → b1 ≡ true → v1 ≢ v0)
    → Owns m (f ++ (one_of b0 v0 ++ one_of b1 v1)) (gives b1 v1 (gives b0 v0 q))
gives-Owns m f q b0 b1 v0 v1 o h0 h1 ne =
    subst (λ l. Owns m l (gives b1 v1 (gives b0 v0 q)))
      (append_assoc f (one_of b0 v0) (one_of b1 v1))
      (give_Owns b1 m (f ++ one_of b0 v0) (gives b0 v0 q) v1 (give_Owns b0 m f q v0 o h0)
        (λ e. contains-gives b0 v1 v0 q (h1 e) (λ e0. ne e0 e)))

-- The two lanes after another.
pub lanes_Owns :
    (m f q : List ℕ) (b0 b1 : Bool) (rd0 rd1 : ℕ)
    → Owns m f q
    → rd0 < 32
    → rd1 < 32
    → 2 ≤ length f
    → Owns
        (map_after b1 (map_after b0 m f rd0) (drop (one_if b0) f) rd1)
        (drop (one_if b0 + one_if b1) f)
        (out_after b1 (map_after b0 m f rd0) (out_after b0 m q rd0) rd1)
lanes_Owns m f q b0 b1 rd0 rd1 o h0 h1 two =
    let after = lane_Owns b0 m f q rd0 o h0 (omega arith) in
    let enough : 1 ≤ length (drop (one_if b0) f) = rw length-drop (few b0 (length f) two) in
    subst
      (λ l.
        Owns (map_after b1 (map_after b0 m f rd0) (drop (one_if b0) f) rd1) l
          (out_after b1 (map_after b0 m f rd0) (out_after b0 m q rd0) rd1))
      (drop-drop (one_if b0) (one_if b1) f)
      (lane_Owns b1 (map_after b0 m f rd0) (drop (one_if b0) f) (out_after b0 m q rd0) rd1 after h1
        enough)
  where
    few : (b : Bool) (n : ℕ) → 2 ≤ n → 1 ≤ n - one_if b
    few true n h = omega arith
    few false n h = omega arith
