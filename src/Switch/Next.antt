-- ===== src/Switch/Next.antt =====
-- The choice of the next sequencer.
use zsequencer.Prelude.{
  sym, ap, true, ℕ, zero, suc, ◌%◌, ◌<◌, ◌≡◌, refl, some, List, [], ◌∷◌, String, length, get_elem?,
  str_eq, eq_iff, arith, Bool-cases, inl, inr,
}
use native.Mathlib.Nat.{mod-lt}
use mathlib.Core.List.{Memᴰ}
use mathlib.Core.List.Memᴰ.{head, tail, not-nil, cases_cons}
use zsequencer.Errors.{ok}
use zsequencer.Distinct.{IsDistinct}
use zsequencer.Dict.{Dict}
use zsequencer.Prelude.Texts.{str_leb, str_leb_total}
use zsequencer.Config.{
  Config, NodeData, NetworkState, last_state, sequencing_nodes, get_nodes_with_role, nodes_where,
  has_role,
}
use zsequencer.Switch.{
  index_of, next_in, id_or_raise, get_next_sequencer_id, ids_of_nodes, insert_id, sort_ids,
  sequencing_ids,
}

mem_of_get_elem? : (x : String) (xs : List String) (i : ℕ) → get_elem? xs i ≡ some x → Memᴰ x xs
mem_of_get_elem? x [] i e = absurd cc
mem_of_get_elem? x (y ∷ ys) zero e = head cc
mem_of_get_elem? x (y ∷ ys) (suc i) e = tail (mem_of_get_elem? x ys i e)

index_of_lem :
    (x : String) (xs : List String) (i : ℕ)
    → IsDistinct xs
    → get_elem? xs i ≡ some x
    → index_of x xs ≡ some i
unfolding index_of
index_of_lem x [] i d e = absurd cc
index_of_lem x (y ∷ ys) zero d e = let same : x ≡ y = cc in rw same (ground (arith, eq_iff y y))
index_of_lem x (y ∷ ys) (suc i) d e = elim (Bool-cases (str_eq x y)) [
  | inl h ↦
      let same : x ≡ y = ground (arith, eq_iff x y) in
      absurd (d.0 (rw same at (mem_of_get_elem? x ys i e)))
  | inr h ↦ rw h (rw (index_of_lem x ys i d.1 e) refl)
]

get_elem?-some :
    (xs : List String) (i : ℕ) → i < length xs → (x : String) × (get_elem? xs i ≡ some x)
get_elem?-some [] i h = absurd (omega arith)
get_elem?-some (x ∷ xs) zero h = (x, refl)
get_elem?-some (x ∷ xs) (suc i) h = get_elem?-some xs i (omega arith)

below_length : (xs : List String) (i : ℕ) (x : String) → get_elem? xs i ≡ some x → i < length xs
below_length [] i x e = absurd cc
below_length (y ∷ ys) zero x e = omega arith
below_length (y ∷ ys) (suc i) x e = let h = below_length ys i x e in omega arith

-- A node of the state with the role to sequence.
pub record IsSequencing {Key : Type 0} (s : NetworkState Key) (id : String) : Type 0 where
  pub address : String
  pub node : NodeData Key
  pub is_node : Memᴰ (address, node) s.nodes
  pub same_id : node.id ≡ id
  pub may_sequence : has_role "sequencing" node.roles ≡ true

-- Each text is not after the next.
abbrev pub IsAscending : List String → Type 0
IsAscending [] = Unit {0}
IsAscending (x ∷ []) = Unit {0}
IsAscending (x ∷ y ∷ ys) = (str_leb x y ≡ true) × IsAscending (y ∷ ys)

mem-insert_id : (x id : String) (xs : List String) → Memᴰ x (insert_id id xs) → Memᴰ x (id ∷ xs)
unfolding insert_id
mem-insert_id x id [] m = m
mem-insert_id x id (y ∷ ys) m = elim (Bool-cases (str_leb id y)) [
  | inl e ↦ rw e at m
  | inr e ↦ elim (cases_cons {b = y} {l = insert_id id ys} (rw e at m)) [
    | inl h ↦ tail (head h)
    | inr m' ↦ elim (cases_cons (mem-insert_id x id ys m')) [
      | inl h ↦ head h
      | inr m'' ↦ tail (tail m'')
    ]
  ]
]

mem_insert_id_of : (x id : String) (xs : List String) → Memᴰ x (id ∷ xs) → Memᴰ x (insert_id id xs)
unfolding insert_id
mem_insert_id_of x id [] m = m
mem_insert_id_of x id (y ∷ ys) m = elim (Bool-cases (str_leb id y)) [
  | inl e ↦ rw e m
  | inr e ↦ rw e (elim (cases_cons m) [
    | inl h ↦ tail (mem_insert_id_of x id ys (head h))
    | inr m' ↦ elim (cases_cons m') [
      | inl h ↦ head h
      | inr m'' ↦ tail (mem_insert_id_of x id ys (tail m''))
    ]
  ])
]

mem-sort_ids : (x : String) (xs : List String) → Memᴰ x (sort_ids xs) → Memᴰ x xs
unfolding sort_ids
mem-sort_ids x [] m = m
mem-sort_ids x (y ∷ ys) m = elim (cases_cons (mem-insert_id x y (sort_ids ys) m)) [
  | inl h ↦ head h
  | inr m' ↦ tail (mem-sort_ids x ys m')
]

mem_sort_ids_of : (x : String) (xs : List String) → Memᴰ x xs → Memᴰ x (sort_ids xs)
unfolding sort_ids
mem_sort_ids_of x [] m = m
mem_sort_ids_of x (y ∷ ys) (head e) = mem_insert_id_of x y (sort_ids ys) (head e)
mem_sort_ids_of x (y ∷ ys) (tail m) =
    mem_insert_id_of x y (sort_ids ys) (tail (mem_sort_ids_of x ys m))

insert_id-IsDistinct :
    (id : String) (xs : List String) → ¬ Memᴰ id xs → IsDistinct xs → IsDistinct (insert_id id xs)
unfolding insert_id
insert_id-IsDistinct id [] n d = ((λ m. not-nil m), tt)
insert_id-IsDistinct id (y ∷ ys) n d = elim (Bool-cases (str_leb id y)) [
  | inl e ↦ rw e (n, d)
  | inr e ↦ rw e (
    λ m. elim (cases_cons (mem-insert_id y id ys m)) [ inl h ↦ n (head (sym h)) | inr m' ↦ d.0 m' ],
    insert_id-IsDistinct id ys (λ m. n (tail m)) d.1,
  )
]

sort_ids-IsDistinct : (xs : List String) → IsDistinct xs → IsDistinct (sort_ids xs)
unfolding sort_ids
sort_ids-IsDistinct [] d = tt
sort_ids-IsDistinct (x ∷ xs) d =
    insert_id-IsDistinct x (sort_ids xs) (λ m. d.0 (mem-sort_ids x xs m))
      (sort_ids-IsDistinct xs d.1)

insert_id-IsAscending :
    (id : String) (xs : List String) → IsAscending xs → IsAscending (insert_id id xs)
unfolding insert_id
insert_id-IsAscending id [] a = tt
insert_id-IsAscending id (x ∷ []) a = elim (Bool-cases (str_leb id x)) [
  | inl e ↦ rw e (e, tt)
  | inr e ↦ rw e (str_leb_total id x e, tt)
]
insert_id-IsAscending id (x ∷ y ∷ ys) (h, a) = elim (Bool-cases (str_leb id x)) [
  | inl e ↦ rw e (e, (h, a))
  | inr e ↦
      let rest = insert_id-IsAscending id (y ∷ ys) a in
      elim (Bool-cases (str_leb id y)) [
        | inl f ↦ rw (e, f) (str_leb_total id x e, (f, a))
        | inr f ↦ rw (e, f) (h, rw f at rest)
      ]
]

sort_ids-IsAscending : (xs : List String) → IsAscending (sort_ids xs)
unfolding sort_ids
sort_ids-IsAscending [] = tt
sort_ids-IsAscending (x ∷ xs) = insert_id-IsAscending x (sort_ids xs) (sort_ids-IsAscending xs)

place_of : (x : String) (xs : List String) → Memᴰ x xs → (i : ℕ) × (get_elem? xs i ≡ some x)
place_of x [] m = absurd (not-nil m)
place_of x (y ∷ ys) (head e) = (0, ap some (sym e))
place_of x (y ∷ ys) (tail m) = let (i, e) = place_of x ys m in (suc i, e)

module _ {Key : Type 0} where
  -- The selected nodes have the role, and are nodes of the state.
  role_of :
      (id : String) (nodes : Dict (NodeData Key))
      → Memᴰ id (ids_of_nodes (nodes_where (λ n. has_role "sequencing" n.roles) nodes))
      → (address : String) × (node : NodeData Key) × Memᴰ (address, node) nodes
        × (node.id ≡ id)
        × (has_role "sequencing" node.roles ≡ true)
  unfolding nodes_where ids_of_nodes
  role_of id [] m = absurd (not-nil m)
  role_of id ((address, node) ∷ rest) m = elim (Bool-cases (has_role "sequencing" node.roles)) [
    | inr e ↦ let (a, n, i, s, r) = role_of id rest (rw e at m) in (a, n, tail i, s, r)
    | inl e ↦ elim (cases_cons {b = node.id} (rw (e, ids_of_nodes) at m)) [
      | inl h ↦ (address, node, head refl, sym h, e)
      | inr m' ↦ let (a, n, i, s, r) = role_of id rest m' in (a, n, tail i, s, r)
    ]
  ]

  -- If the nodes with the role to sequence have distinct ids, the sequencer after one of them
  -- is the next in their ascending order, the first after the last, and is a node with that
  -- role.
  pub get_next_sequencer_id_lem :
      (c : Config Key) (s : NetworkState Key) (id : String)
      → last_state c ≡ ok s
      → IsDistinct (ids_of_nodes (sequencing_nodes s))
      → Memᴰ id (ids_of_nodes (sequencing_nodes s))
      → (i : ℕ) × (next : String) × (get_elem? (sequencing_ids s) i ≡ some id)
        × (get_elem? (sequencing_ids s) (suc i % length (sequencing_ids s)) ≡ some next)
        × (get_next_sequencer_id c id ≡ ok next)
        × IsAscending (sequencing_ids s)
        × IsSequencing s next
  unfolding get_next_sequencer_id next_in id_or_raise sequencing_ids sequencing_nodes
      get_nodes_with_role
  get_next_sequencer_id_lem c s id known d m =
      let nodes_ids = ids_of_nodes (sequencing_nodes s) in
      let ids = sort_ids nodes_ids in
      let (i, e) = place_of id ids (mem_sort_ids_of id nodes_ids m) in
      let h = below_length ids i id e in
      let (next, x) = get_elem?-some ids (suc i % length ids) (mod-lt (suc i) (omega arith)) in
      let (a, n, y, z, r) =
        role_of next s.nodes
          (mem-sort_ids next nodes_ids (mem_of_get_elem? next ids (suc i % length ids) x)) in
      (
        i,
        next,
        e,
        x,
        rw known (rw (index_of_lem id ids i (sort_ids-IsDistinct nodes_ids d) e) (rw x refl)),
        sort_ids-IsAscending nodes_ids,
        record { address = a; node = n; is_node = y; same_id = z; may_sequence = r },
      )
