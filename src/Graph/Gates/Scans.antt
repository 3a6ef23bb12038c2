-- ===== src/Graph/Gates/Scans.antt =====
-- One round of the search of `dtg_node_has_downstream_gate`, in closed form.
use Prim.Native.Nat.add
use dstudio.Base.{
  ℕ, zero, suc, ◌+◌, ◌<◌, ◌≡◌, inl, inr, refl, ap, Bool, true, false, not, ◌&&◌, ◌||◌, some, List,
  [], ◌∷◌, ◌++◌, append-nil, append_assoc, Str, if◌then◌else◌, length, get_elem?, count,
  count-append, arith, Bool-cases, length-append,
}
use dstudio.Graph.Types.{NodeKind, Node}
use dstudio.Graph.Kinds.{kind_eq}
use dstudio.Graph.Gates.{has_edge, found, more, scan}

abbrev pub is_gate : Node → Bool
is_gate n = kind_eq n.kind NodeKind.gate

-- The flag at an index; out of range it is false.
abbrev pub flag : List Bool → ℕ → Bool
flag [] i = false
flag (s ∷ seen) zero = s
flag (s ∷ seen) (suc i) = flag seen i

-- Whether the scan meets a gate, what it marks, and what it queues.
abbrev pub hits : Str → List Node → List Bool → Bool
hits id [] seen = false
hits id (n ∷ ns) [] = false
hits id (n ∷ ns) (s ∷ seen) = not s && has_edge n id && is_gate n || hits id ns seen

abbrev pub marked : Str → List Node → List Bool → List Bool
marked id [] seen = []
marked id (n ∷ ns) [] = []
marked id (n ∷ ns) (s ∷ seen) = (s || not s && has_edge n id) ∷ marked id ns seen

abbrev pub added : ℕ → Str → List Node → List Bool → List ℕ
added i id [] seen = []
added i id (n ∷ ns) [] = []
added i id (n ∷ ns) (s ∷ seen) =
    (if not s && has_edge n id then i ∷ [] else []) ++ added (suc i) id ns seen

pub scan_lem :
    (i : ℕ) (id : Str) (ns : List Node) (seen : List Bool) (queue : List ℕ)
    → scan i id ns seen queue
      ≡ (if hits id ns seen then found else more (marked id ns seen) (queue ++ added i id ns seen))
unfolding scan
scan_lem i id [] seen queue = rw append-nil refl
scan_lem i id (n ∷ ns) [] queue = rw append-nil refl
scan_lem i id (n ∷ ns) (s ∷ seen) queue = elim (Bool-cases (not s && has_edge n id)) [
  | inl edge ↦
      rw
        (
          edge,
          scan_lem (suc i) id ns seen (queue ++ i ∷ []),
          append_assoc queue (i ∷ []) (added (suc i) id ns seen),
        )
        (ground arith)
  | inr none_here ↦ rw (none_here, scan_lem (suc i) id ns seen queue) (ground arith)
]

pub length-marked :
    (id : Str) (ns : List Node) (seen : List Bool)
    → length seen ≡ length ns
    → length (marked id ns seen) ≡ length ns
length-marked id [] seen h = refl
length-marked id (n ∷ ns) [] h = absurd (omega arith)
length-marked id (n ∷ ns) (s ∷ seen) h = ap suc (length-marked id ns seen (omega arith))

pub flag-marked :
    (id : Str) (ns : List Node) (seen : List Bool) (j : ℕ) (n : Node)
    → length seen ≡ length ns
    → get_elem? ns j ≡ some n
    → flag (marked id ns seen) j ≡ (flag seen j || has_edge n id)
flag-marked id [] seen j n h e = cc
flag-marked id (m ∷ ns) [] j n h e = absurd (omega arith)
flag-marked id (m ∷ ns) (s ∷ seen) zero n h e = let same : m ≡ n = cc in rw same (ground arith)
flag-marked id (m ∷ ns) (s ∷ seen) (suc j) n h e = flag-marked id ns seen j n (omega arith) e

added_above :
    (j i : ℕ) (id : Str) (ns : List Node) (seen : List Bool)
    → j < i
    → count j (added i id ns seen) ≡ 0
added_above j i id [] seen h = refl
added_above j i id (n ∷ ns) [] h = refl
added_above j i id (n ∷ ns) (s ∷ seen) h =
    let here = if not s && has_edge n id then i ∷ [] else [] in
    let rest = added_above j (suc i) id ns seen (omega arith) in
    let none_here : count j here ≡ 0 = ground arith in
    rw (count-append j here (added (suc i) id ns seen)) (omega arith)

pub count-added :
    (i : ℕ) (id : Str) (ns : List Node) (seen : List Bool) (j : ℕ) (n : Node)
    → length seen ≡ length ns
    → get_elem? ns j ≡ some n
    → count (i + j) (added i id ns seen) ≡ (if not (flag seen j) && has_edge n id then 1 else 0)
count-added i id [] seen j n h e = cc
count-added i id (m ∷ ns) [] j n h e = absurd (omega arith)
count-added i id (m ∷ ns) (s ∷ seen) zero n h e =
    let shift : i + 0 ≡ i = omega arith in
    let same : m ≡ n = cc in
    let here = if not s && has_edge m id then i ∷ [] else [] in
    rw (shift, count-append i here (added (suc i) id ns seen), ← same)
      (ground (arith, added_above i (suc i) id ns seen))
count-added i id (m ∷ ns) (s ∷ seen) (suc j) n h e =
    let shift : i + suc j ≡ suc i + j = omega arith in
    let here = if not s && has_edge m id then i ∷ [] else [] in
    let absent : count (suc i + j) here ≡ 0 = ground arith in
    rw (shift, count-append (suc i + j) here (added (suc i) id ns seen), absent, add.zero)
      (count-added (suc i) id ns seen j n (omega arith) e)

abbrev pub unseen : List Bool → ℕ
unseen [] = 0
unseen (s ∷ seen) = (if s then 0 else 1) + unseen seen

pub unseen-marked :
    (i : ℕ) (id : Str) (ns : List Node) (seen : List Bool)
    → length seen ≡ length ns
    → unseen (marked id ns seen) + length (added i id ns seen) ≡ unseen seen
unseen-marked i id [] [] h = omega arith
unseen-marked i id [] (s ∷ seen) h = absurd (omega arith)
unseen-marked i id (n ∷ ns) [] h = absurd (omega arith)
unseen-marked i id (n ∷ ns) (s ∷ seen) h =
    let here = if not s && has_edge n id then i ∷ [] else [] in
    let split = length-append here (added (suc i) id ns seen) in
    let ih = unseen-marked (suc i) id ns seen (omega arith) in ground arith

-- A hit is an unseen gate with an edge from the popped node, and no hit means that there is none.
pub hits_sound :
    (id : Str) (ns : List Node) (seen : List Bool)
    → hits id ns seen ≡ true
    → (j : ℕ) × (n : Node) × (get_elem? ns j ≡ some n)
      × (flag seen j ≡ false)
      × (has_edge n id ≡ true)
      × (is_gate n ≡ true)
hits_sound id [] seen h = cc
hits_sound id (n ∷ ns) [] h = cc
hits_sound id (n ∷ ns) (s ∷ seen) h = elim (Bool-cases (not s && has_edge n id && is_gate n)) [
  | inl here ↦ (0, n, refl, ground arith, ground arith, ground arith)
  | inr miss ↦
      let (j, m, e, f, g, k) = hits_sound id ns seen (ground arith) in (suc j, m, e, f, g, k)
]

pub hits_complete :
    (id : Str) (ns : List Node) (seen : List Bool) (j : ℕ) (n : Node)
    → length seen ≡ length ns
    → hits id ns seen ≡ false
    → get_elem? ns j ≡ some n
    → flag seen j ≡ false
    → has_edge n id ≡ true
    → is_gate n ≡ false
hits_complete id [] seen j n l h e f g = cc
hits_complete id (m ∷ ns) [] j n l h e f g = absurd (omega arith)
hits_complete id (m ∷ ns) (s ∷ seen) zero n l h e f g =
    let same : m ≡ n = cc in let edge = rw (← same) at g in rw (← same) (ground arith)
hits_complete id (m ∷ ns) (s ∷ seen) (suc j) n l h e f g =
    hits_complete id ns seen j n (omega arith) (ground arith) e f g
