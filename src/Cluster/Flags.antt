-- ===== src/Cluster/Flags.antt =====
-- src/cluster.cpp: the flags of the nodes, the reports of a node, and the masters with slots.
use epochkv.Prelude.{
  ℕ, ◌+◌, ◌-◌, ◌*◌, ◌/◌, ◌≡◌, refl, inl, inr, List, [], ◌∷◌, some, Bool, true, false, not, ◌||◌,
  ◌==◌, ltb, if◌then◌else◌, Bool-cases, Bytes, length, arith,
}
use epochkv.Cluster.{Node, Env}
use epochkv.Cluster.Nodes.{find_ref, update_ref, count_serving, serves}
use epochkv.Cluster.Failure.{valid_reports}

unfoldable pub is_failing : ℕ → List Node → Bool
is_failing r [] = false
is_failing r (n ∷ ns) = if n.ref == r then n.is_fail else is_failing r ns

-- How many reports are no older than `validity`.
unfoldable pub count_fresh : ℕ → ℕ → List (Bytes × ℕ) → ℕ
count_fresh now validity [] = 0
count_fresh now validity (r ∷ rs) =
    (if ltb validity (now - r.1) then 0 else 1) + count_fresh now validity rs

pub length-valid_reports :
    (now validity : ℕ)
    → (rs : List (Bytes × ℕ)) → length (valid_reports now validity rs) ≡ count_fresh now validity rs
unfolding valid_reports count_fresh
length-valid_reports now validity [] = refl
length-valid_reports now validity (r ∷ rs) =
    ground (arith, length-valid_reports now validity rs, Bool-cases (ltb validity (now - r.1)))

pub is_failing-update_ref :
    (r q : ℕ)
    → (f : Node → Node) → (ns : List Node) → ((n : Node) → (f n).ref ≡ n.ref)
    → ((n : Node) → (f n).is_fail ≡ n.is_fail)
    → is_failing r (update_ref q f ns) ≡ is_failing r ns
unfolding is_failing update_ref
is_failing-update_ref r q f [] a b = refl
is_failing-update_ref r q f (n ∷ ns) a b = elim (Bool-cases (n.ref == q)) [
  | inl e ↦ rw (e, a n, b n, is_failing-update_ref r q f ns a b) refl
  | inr e ↦ rw (e, is_failing-update_ref r q f ns a b) refl
]

-- A write to another node.
is_failing-others :
    (r q : ℕ)
    → (f : Node → Node) → (ns : List Node) → ((r == q) ≡ false)
    → ((n : Node) → (f n).ref ≡ n.ref)
    → is_failing r (update_ref q f ns) ≡ is_failing r ns
unfolding is_failing update_ref
is_failing-others r q f [] e a = refl
is_failing-others r q f (n ∷ ns) e a = elim (Bool-cases (n.ref == q)) [
  | inl t ↦
      let other : (n.ref == r) ≡ false = ground (arith, e, t) in
      rw (t, a n, other) (is_failing-others r q f ns e a)
  | inr t ↦ rw (t, is_failing-others r q f ns e a) refl
]

-- A write that marks a node of the table.
is_failing-marked :
    (q : ℕ)
    → (f : Node → Node) → (n : Node) → (ns : List Node) → (find_ref q ns ≡ some n)
    → ((m : Node) → (f m).ref ≡ m.ref)
    → ((m : Node) → (f m).is_fail ≡ true)
    → is_failing q (update_ref q f ns) ≡ true
unfolding is_failing update_ref find_ref
is_failing-marked q f n [] e a b = absurd (ground (arith, e))
is_failing-marked q f n (m ∷ ns) e a b = elim (Bool-cases (m.ref == q)) [
  | inl t ↦ rw (t, a m, t, b m) refl
  | inr t ↦ rw (t, t) (is_failing-marked q f n ns (ground (arith, e, t)) a b)
]

is_failing-find_ref :
    (q : ℕ) → (n : Node) → (ns : List Node) → (find_ref q ns ≡ some n) → is_failing q ns ≡ n.is_fail
unfolding is_failing find_ref
is_failing-find_ref q n [] e = absurd (ground (arith, e))
is_failing-find_ref q n (m ∷ ns) e =
    ground (arith, e, is_failing-find_ref q n ns, Bool-cases (m.ref == q))

pub was_failing :
    (r : ℕ)
    → (n : Node) → (ns : List Node) → (find_ref n.ref ns ≡ some n)
    → ((r == n.ref) ≡ true)
    → is_failing r ns ≡ n.is_fail
was_failing r n ns h e =
    let same : r ≡ n.ref = ground (arith, e) in rw same (is_failing-find_ref n.ref n ns h)

pub count_serving-update_ref :
    (q : ℕ)
    → (f : Node → Node) → (ns : List Node) → ((n : Node) → serves (f n) ≡ serves n)
    → count_serving (update_ref q f ns) ≡ count_serving ns
unfolding count_serving update_ref
count_serving-update_ref q f [] h = refl
count_serving-update_ref q f (n ∷ ns) h = elim (Bool-cases (n.ref == q)) [
  | inl t ↦ rw (t, h n, count_serving-update_ref q f ns h) refl
  | inr t ↦ rw (t, count_serving-update_ref q f ns h) refl
]

-- Half of the masters and one more is more than half.
pub majority :
    (size failures quorum fresh : ℕ)
    → (quorum ≡ size / 2 + 1)
    → (failures ≡ fresh)
    → not (ltb failures quorum) ≡ ltb size (2 * fresh)
majority size failures quorum fresh h k = ground (arith, h, k)

-- The node as failed.
abbrev pub mark_failed : Env → Node → Node
mark_failed env n = record n { is_pfail = false; is_fail = true; fail_time = env.now }

pub update_ref-update_ref :
    (q : ℕ)
    → (f g : Node → Node) → (ns : List Node) → ((m : Node) → (g m).ref ≡ m.ref)
    → update_ref q f (update_ref q g ns) ≡ update_ref q (λ m. f (g m)) ns
unfolding update_ref
update_ref-update_ref q f g [] a = refl
update_ref-update_ref q f g (m ∷ ns) a = elim (Bool-cases (m.ref == q)) [
  | inl t ↦ rw (t, a m, t, update_ref-update_ref q f g ns a) refl
  | inr t ↦ rw (t, t, update_ref-update_ref q f g ns a) refl
]

-- A mark, on the flags: only that of the node is set.
pub marked :
    (r q : ℕ)
    → (f : Node → Node) → (n : Node) → (ns : List Node) → (find_ref q ns ≡ some n)
    → ((m : Node) → (f m).ref ≡ m.ref)
    → ((m : Node) → (f m).is_fail ≡ true)
    → is_failing r (update_ref q f ns) ≡ (is_failing r ns || r == q)
marked r q f n ns e a b = elim (Bool-cases (r == q)) [
  | inl t ↦
      let same : r ≡ q = ground (arith, t) in
      rw (same, is_failing-marked q f n ns e a b) (ground arith)
  | inr t ↦ rw (t, is_failing-others r q f ns t a) (ground arith)
]
