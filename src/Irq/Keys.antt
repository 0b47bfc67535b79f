-- ===== src/Irq/Keys.antt =====
-- The keys of the nodes of `struct nvme_irq_set`, ids with their vectors: what the searches and the
-- deletions of its two lists read.
use dnvme.Base.{
  ℕ, ◌≡◌, ◌≢◌, refl, Option, none, some, List, [], ◌∷◌, ◌++◌, ◌==◌, if◌then◌else◌, All, arith,
}
use mathlib.Core.Option
use dnvme.Device.{Irq, Work}
use dnvme.Irq.{
  find_irq_node_by_id, find_irq_node_by_vec, find_work_node_by_id, find_work_node_by_vec,
  update_irq_node, delete_irq_node, delete_work_node,
}

-- An id with its vector.
abbrev pub Key : Type 0
Key = ℕ × ℕ

abbrev pub irq_keys : List Irq → List Key
irq_keys [] = []
irq_keys (n ∷ ns) = (n.irq_id, n.int_vec) ∷ irq_keys ns

abbrev pub work_keys : List Work → List Key
work_keys [] = []
work_keys (n ∷ ns) = (n.irq_id, n.int_vec) ∷ work_keys ns

abbrev pub Differs : Key → Key → Type 0
Differs (i, v) (j, w) = (i ≢ j) × (v ≢ w)

abbrev pub Unique : List Key → Type 0
Unique [] = Unit
Unique (k ∷ ks) = All (Differs k) ks × Unique ks

unfoldable pub vec_of : ℕ → List Key → Option ℕ
vec_of irq_id [] = none
vec_of irq_id ((i, v) ∷ ks) = if irq_id == i then some v else vec_of irq_id ks

unfoldable pub id_of : ℕ → List Key → Option ℕ
id_of int_vec [] = none
id_of int_vec ((i, v) ∷ ks) = if int_vec == v then some i else id_of int_vec ks

unfoldable pub delete_key : ℕ → List Key → List Key
delete_key irq_id [] = []
delete_key irq_id ((i, v) ∷ ks) =
    let rest = delete_key irq_id ks in if irq_id == i then ks else (i, v) ∷ rest

-- The searches and deletions of both lists read the keys alone.
pub find_irq_node_by_id-keys :
    (ns : List Irq) (i : ℕ)
    → Option.map (λ n. n.int_vec) (find_irq_node_by_id ns i) ≡ vec_of i (irq_keys ns)
unfolding find_irq_node_by_id vec_of
find_irq_node_by_id-keys [] i = refl
find_irq_node_by_id-keys (n ∷ ns) i = ground (arith, find_irq_node_by_id-keys ns i)

pub find_irq_node_by_vec-keys :
    (ns : List Irq) (v : ℕ)
    → Option.map (λ n. n.irq_id) (find_irq_node_by_vec ns v) ≡ id_of v (irq_keys ns)
unfolding find_irq_node_by_vec id_of
find_irq_node_by_vec-keys [] v = refl
find_irq_node_by_vec-keys (n ∷ ns) v = ground (arith, find_irq_node_by_vec-keys ns v)

pub find_work_node_by_id-keys :
    (ns : List Work) (i : ℕ)
    → Option.map (λ n. n.int_vec) (find_work_node_by_id ns i) ≡ vec_of i (work_keys ns)
unfolding find_work_node_by_id vec_of
find_work_node_by_id-keys [] i = refl
find_work_node_by_id-keys (n ∷ ns) i = ground (arith, find_work_node_by_id-keys ns i)

pub find_work_node_by_vec-keys :
    (ns : List Work) (v : ℕ)
    → Option.map (λ n. n.irq_id) (find_work_node_by_vec ns v) ≡ id_of v (work_keys ns)
unfolding find_work_node_by_vec id_of
find_work_node_by_vec-keys [] v = refl
find_work_node_by_vec-keys (n ∷ ns) v = ground (arith, find_work_node_by_vec-keys ns v)

pub irq_keys-delete :
    (i : ℕ) (ns : List Irq) → irq_keys (delete_irq_node i ns) ≡ delete_key i (irq_keys ns)
unfolding delete_irq_node delete_key
irq_keys-delete i [] = refl
irq_keys-delete i (n ∷ ns) = ground (arith, irq_keys-delete i ns)

pub work_keys-delete :
    (i : ℕ) (ns : List Work) → work_keys (delete_work_node i ns) ≡ delete_key i (work_keys ns)
unfolding delete_work_node delete_key
work_keys-delete i [] = refl
work_keys-delete i (n ∷ ns) = ground (arith, work_keys-delete i ns)

pub irq_keys-append : (ns ms : List Irq) → irq_keys (ns ++ ms) ≡ irq_keys ns ++ irq_keys ms
irq_keys-append [] ms = refl
irq_keys-append (n ∷ ns) ms = ground (arith, irq_keys-append ns ms)

pub work_keys-append : (ns ms : List Work) → work_keys (ns ++ ms) ≡ work_keys ns ++ work_keys ms
work_keys-append [] ms = refl
work_keys-append (n ∷ ns) ms = ground (arith, work_keys-append ns ms)

-- A write that keeps the id and the vector keeps the keys.
pub irq_keys-update :
    (i : ℕ) (f : Irq → Irq) (ns : List Irq)
    → ((n : Irq) → ((f n).irq_id ≡ n.irq_id) × ((f n).int_vec ≡ n.int_vec))
    → irq_keys (update_irq_node i f ns) ≡ irq_keys ns
unfolding update_irq_node
irq_keys-update i f [] keeps = refl
irq_keys-update i f (n ∷ ns) keeps = ground (arith, keeps n, irq_keys-update i f ns keeps)

pub irq_keys-update_found :
    (i : ℕ) (n m : Irq) (ns : List Irq)
    → find_irq_node_by_id ns i ≡ some n
    → m.irq_id ≡ n.irq_id
    → m.int_vec ≡ n.int_vec
    → irq_keys (update_irq_node i (λ _. m) ns) ≡ irq_keys ns
unfolding update_irq_node find_irq_node_by_id
irq_keys-update_found i n m [] e p q = cc
irq_keys-update_found i n m (k ∷ ns) e p q = ground (arith, irq_keys-update_found i n m ns)

pub All-delete_key :
    (k : Key) (i : ℕ) (ks : List Key) → All (Differs k) ks → All (Differs k) (delete_key i ks)
unfolding delete_key
All-delete_key k i [] h = tt
All-delete_key k i ((j, v) ∷ ks) h = ground (arith, All-delete_key k i ks)

pub Unique-delete_key : (i : ℕ) (ks : List Key) → Unique ks → Unique (delete_key i ks)
unfolding delete_key
Unique-delete_key i [] h = tt
Unique-delete_key i ((j, v) ∷ ks) h =
    ground (arith, All-delete_key (j, v) i ks, Unique-delete_key i ks)

pub All-append :
    (k : Key) (i v : ℕ) (ks : List Key)
    → All (Differs k) ks
    → Differs k (i, v)
    → All (Differs k) (ks ++ (i, v) ∷ [])
All-append k i v [] h d = (d, tt)
All-append k i v (m ∷ ks) h d = (h.0, All-append k i v ks h.1 d)

pub Unique-append :
    (i v : ℕ) (ks : List Key)
    → Unique ks
    → vec_of i ks ≡ none
    → id_of v ks ≡ none
    → Unique (ks ++ (i, v) ∷ [])
unfolding vec_of id_of
Unique-append i v [] h p q = (tt, tt)
Unique-append i v ((j, w) ∷ ks) h p q = (
  All-append (j, w) i v ks h.0 (ground arith, ground arith),
  Unique-append i v ks h.1 (ground arith) (ground arith),
)
