-- ===== src/Rmid/Init.antt =====
-- Setting up the pool.
use mathlib.Core.List.{Perm, map-append, perm_append_comm}
use mathlib.Core.List.Perm
use native.Mathlib.Nat.{mod-lt}
use pmctrack.Prelude.{
  ℕ, zero, suc, ◌+◌, ◌-◌, ◌%◌, ◌≤◌, ◌<◌, ◌≡◌, refl, ap, sym, ap₂, subst, ◌∙◌, List, [], ◌∷◌, ◌++◌,
  none, some, Bool, true, Option, length, get_or, set, map, append-nil, append_assoc, arith,
  Ensures, Ensures-bind, Ensures-mono, length-set, get_or-set_self, get_or-set_ne, ℕ_discrete,
  length-append, get_elem?_beyond, dec_lt,
}
use pmctrack.Memory.{rem_pos, load_in, store_in}
use pmctrack.Rmid.{RmidNode, Policy, Pool, fill_rmid_pool, initialize_rmid_pool, add_nodes}
use pmctrack.Prelude.Runs.{run, length-run}
use pmctrack.Rmid.Sharing.{blank, IsNode, Inv}

add_nodes-beyond :
    (i n : ℕ) (nodes : List RmidNode) (av : List ℕ)
    → 0 < n
    → length nodes < i + n
    → add_nodes i n nodes av ≡ none
unfolding add_nodes
add_nodes-beyond i zero nodes av h k = absurd (omega arith)
add_nodes-beyond i (suc n) nodes av h k = elim (dec_lt i (length nodes)) [
  | no x ↦ rw (get_elem?_beyond nodes i (omega arith)) refl
  | yes x ↦
      let node : RmidNode = record (get_or nodes i blank) {
        rmid = i + 1;
        free_rmid = true;
        ref_counter = 0;
      } in
      rw (load_in nodes i blank x) (
        rw (store_in nodes i node x) (
          add_nodes-beyond (suc i) n (set nodes i node) (av ++ i ∷ []) (omega arith)
            (omega (arith, length-set nodes i node))))
]

fill_rmid_pool-overrun :
    (allocated : List RmidNode) (room nr : ℕ) (policy : Policy) (random : ℕ)
    → 0 < nr
    → length allocated ≡ nr - 1
    → fill_rmid_pool allocated room nr policy random ≡ none
unfolding fill_rmid_pool
fill_rmid_pool-overrun allocated room nr policy random h e =
    let l = mod-lt random {m = nr} h in
    rw (rem_pos random nr h) (
      rw
        (add_nodes-beyond (random % nr) (nr - random % nr) allocated [] (omega (arith, l))
          (omega (arith, l, e)))
        refl)

-- When all three arrays are allocated with the sizes that the code asks for, one less than RMIDs,
-- setting up the pool always writes behind the end of the array of nodes.
pub initialize_rmid_pool-overrun :
    (kmalloc_nodes : ℕ → Option (List RmidNode)) (kmalloc_rmids kmalloc_counts : ℕ → Bool) (nr : ℕ)
    (policy : Policy) (random : ℕ) (p : Pool) (allocated : List RmidNode)
    → 0 < nr
    → kmalloc_nodes (nr - 1) ≡ some allocated
    → length allocated ≡ nr - 1
    → kmalloc_rmids (nr - 1) ≡ true
    → kmalloc_counts (nr - 1) ≡ true
    → initialize_rmid_pool kmalloc_nodes kmalloc_rmids kmalloc_counts nr policy random p ≡ none
unfolding initialize_rmid_pool
initialize_rmid_pool-overrun kn kr kc nr policy random p allocated h e l r c =
    rw (e, r, c, fill_rmid_pool-overrun allocated (nr - 1) nr policy random h l) refl

-- The buffers of a node
pub record Buffers (node : RmidNode) : Type 0 where
  pub raws : 0 < length node.raw_bandwidth_value
  pub values : 0 < length node.bandwidth_value

record Ready (j : ℕ) (node : RmidNode) : Type 0 where
  numbered : node.rmid ≡ j + 1
  free : node.free_rmid ≡ true

-- After the loop over the nodes from `i` on, `n` of them
record Added (i n : ℕ) (nodes : List RmidNode) (av : List ℕ) (r : List RmidNode × List ℕ)
    : Type 0 where
  sized : length r.0 ≡ length nodes
  buffers : (j : ℕ) → j < length nodes → Buffers (get_or r.0 j blank)
  listed : r.1 ≡ av ++ run i n
  ready : (j : ℕ) → i ≤ j → j < i + n → Ready j (get_or r.0 j blank)
  before : (j : ℕ) → j < i → get_or r.0 j blank ≡ get_or nodes j blank
  after : (j : ℕ) → i + n ≤ j → get_or r.0 j blank ≡ get_or nodes j blank

add_nodes-Added :
    (i n : ℕ) (nodes : List RmidNode) (av : List ℕ)
    → i + n ≤ length nodes
    → ((j : ℕ) → j < length nodes → Buffers (get_or nodes j blank))
    → Ensures (add_nodes i n nodes av) (Added i n nodes av)
unfolding add_nodes
add_nodes-Added i zero nodes av h b = record {
  sized = refl;
  buffers = b;
  listed = sym (append-nil av);
  ready = λ j x y. absurd (omega arith);
  before = λ j x. refl;
  after = λ j x. refl;
}
add_nodes-Added i (suc n) nodes av h b = rw (load_in nodes i blank inside) (
    rw (store_in nodes i node inside) (
      Ensures-mono (add_nodes (suc i) n (set nodes i node) (av ++ i ∷ []))
        (Added (suc i) n (set nodes i node) (av ++ i ∷ [])) (Added i (suc n) nodes av)
        (add_nodes-Added (suc i) n (set nodes i node) (av ++ i ∷ []) (omega (arith, same)) moved)
        (λ r a. record {
          sized = a.sized ∙ same;
          buffers = λ j l. a.buffers j (omega (arith, same));
          listed = a.listed ∙ append_assoc av (i ∷ []) (run (suc i) n);
          ready = λ j x y. elim (ℕ_discrete j i) [
            | yes e ↦
                rw (e, a.before i (omega arith), get_or-set_self nodes i node blank inside)
                  (record { numbered = refl; free = refl })
            | no ne ↦ a.ready j (omega arith) (omega arith)
          ];
          before = λ j x.
              a.before j (omega arith)
              ∙ get_or-set_ne nodes i j node blank (λ q. absurd (omega arith));
          after = λ j x.
              a.after j (omega arith)
              ∙ get_or-set_ne nodes i j node blank (λ q. absurd (omega arith));
        })))
  where
    inside : i < length nodes
    inside = omega arith

    node : RmidNode
    node = record (get_or nodes i blank) { rmid = i + 1; free_rmid = true; ref_counter = 0 }

    same : length (set nodes i node) ≡ length nodes
    same = length-set nodes i node

    moved : (j : ℕ) → j < length (set nodes i node) → Buffers (get_or (set nodes i node) j blank)
    moved j l = elim (ℕ_discrete j i) [
      | yes e ↦
          rw (e, get_or-set_self nodes i node blank inside)
            (record { raws = (b i inside).raws; values = (b i inside).values })
      | no ne ↦
          rw (get_or-set_ne nodes i j node blank (λ q. ne (sym q))) (b j (omega (arith, same)))
    ]

map-run : (i n : ℕ) → map suc (run i n) ≡ run (suc i) n
map-run i zero = refl
map-run i (suc n) = ap (λ l. suc i ∷ l) (map-run (suc i) n)

run-append : (i m n : ℕ) → run i m ++ run (i + m) n ≡ run i (m + n)
run-append i zero n = ap₂ run {x = i + 0} {y = i} (omega arith) (omega arith)
run-append i (suc m) n =
    ap (λ l. i ∷ l) (ap (λ k. run (suc i) m ++ run k n) (omega arith) ∙ run-append (suc i) m n)
    ∙ ap (run i) {x = suc (m + n)} {y = suc m + n} (omega arith)

listed-Perm : (nr s : ℕ) → s < nr → Perm (map suc (run s (nr - s) ++ run 0 s)) (run 1 nr)
listed-Perm nr s h =
    subst (λ l. Perm l (run 1 nr))
      (sym
        (map-append suc (run s (nr - s)) (run 0 s) ∙ ap₂ ◌++◌ (map-run s (nr - s)) (map-run 0 s)))
      (Perm.trans (perm_append_comm (run (suc s) (nr - s)) (run 1 s))
        (subst (λ l. Perm l (run 1 nr)) (sym whole) (Perm.refl (run 1 nr))))
  where
    whole : run 1 s ++ run (suc s) (nr - s) ≡ run 1 nr
    whole =
        ap (λ k. run 1 s ++ run k (nr - s)) (omega arith)
        ∙ run-append 1 s (nr - s)
        ∙ ap (run 1) {x = s + (nr - s)} {y = nr} (omega arith)

ready-IsNode : (j : ℕ) (node : RmidNode) → Ready j node → Buffers node → IsNode j [] node
ready-IsNode j node r b = record {
  numbered = r.numbered;
  used = λ q. absurd (cc (q, r.free));
  raws = b.raws;
  values = b.values;
}

-- Set up from any random number, with room for all RMIDs, the pool has every RMID free, once.
pub fill_rmid_pool-Inv :
    (allocated : List RmidNode) (room nr : ℕ) (policy : Policy) (random : ℕ)
    → 0 < nr
    → nr ≤ length allocated
    → nr ≤ room
    → ((j : ℕ) → j < length allocated → Buffers (get_or allocated j blank))
    → Ensures
        (fill_rmid_pool allocated room nr policy random)
        (λ p. Inv nr p × (p.assigned_rmids ≡ []))
unfolding fill_rmid_pool
fill_rmid_pool-Inv allocated room nr policy random h l r b = rw (rem_pos random nr h) (
    Ensures-bind (add_nodes s (nr - s) allocated []) (Added s (nr - s) allocated []) _ _
      (add_nodes-Added s (nr - s) allocated [] (omega (arith, small)) b)
      (λ u a.
        Ensures-bind (add_nodes 0 s u.0 u.1) (Added 0 s u.0 u.1) _ _
          (add_nodes-Added 0 s u.0 u.1 (omega (arith, small, a.sized))
            (λ j k. a.buffers j (omega (arith, a.sized))))
          (λ v c. (
            record {
              allocated = omega (arith, c.sized, a.sized);
              nodes = λ j k.
                  ready-IsNode j (get_or v.0 j blank) (ready u v a c j k)
                    (c.buffers j (omega (arith, a.sized)));
              counted = omega (
                arith,
                ap length (listed u v a c),
                length-append (run s (nr - s)) (run 0 s),
                length-run s (nr - s),
                length-run 0 s,
              );
              parts =
                  subst (λ l. Perm (map suc l ++ []) (run 1 nr)) (sym (listed u v a c))
                    (subst (λ l. Perm l (run 1 nr))
                      (sym (append-nil (map suc (run s (nr - s) ++ run 0 s))))
                      (listed-Perm nr s small));
              roomy = r;
            },
            refl,
          ))))
  where
    s : ℕ
    s = random % nr

    small : s < nr
    small = mod-lt random {m = nr} h

    listed :
        (u v : List RmidNode × List ℕ)
        → Added s (nr - s) allocated [] u
        → Added 0 s u.0 u.1 v
        → v.1 ≡ run s (nr - s) ++ run 0 s
    listed u v a c = c.listed ∙ ap (λ l. l ++ run 0 s) a.listed

    ready :
        (u v : List RmidNode × List ℕ)
        → Added s (nr - s) allocated [] u
        → Added 0 s u.0 u.1 v
        → (j : ℕ) → j < nr
        → Ready j (get_or v.0 j blank)
    ready u v a c j k = elim (dec_lt j s) [
      | yes x ↦ c.ready j (omega arith) (omega arith)
      | no x ↦ rw (c.after j (omega arith)) (a.ready j (omega arith) (omega arith))
    ]
