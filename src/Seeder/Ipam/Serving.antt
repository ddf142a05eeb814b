-- ===== src/Seeder/Ipam/Serving.antt =====
-- Which connection of a switch serves an interface.
use das_boot.Prelude.{
  All, Bool, Bool-cases, List, Occurs, Option, String, [], ap, arith, eq_iff, false, if◌then◌else◌,
  inl, inr, none, refl, some, str_eq, sym, true, ◌&&◌, ◌++◌, ◌∙◌, ◌∷◌, ◌≡◌,
}
use das_boot.Seeder.Ipam.Defs.{is_requested, is_served}
use das_boot.Seeder.Wiring.{Connection, Management}

-- The interface was requested, is the ONIE port of the connection, and name and address are configured.
abbrev pub Serves : List String → String → Management → Type 0
Serves interfaces name m =
    Occurs m.onie_port_name interfaces
    × (m.onie_port_name ≡ name)
    × (¬ (m.onie_port_name ≡ ""))
    × (¬ (m.switch_ip ≡ ""))

abbrev pub ServesBy : List String → String → Connection → Management → Type 0
ServesBy interfaces name conn m = (conn.management ≡ some m) × Serves interfaces name m

-- No connection of the list serves the interface.
abbrev pub NoneServes : List String → String → List Connection → Type 0
NoneServes interfaces name =
    All (λ (conn : Connection). ¬ ((m : Management) × ServesBy interfaces name conn m))

-- The last connection of the list that serves the interface.
abbrev pub IsLast : List String → String → List Connection → Connection → Management → Type 0
IsLast interfaces name conns conn m =
    (before : List Connection) × (after : List Connection) × (conns ≡ before ++ conn ∷ after)
    × ServesBy interfaces name conn m
    × NoneServes interfaces name after

is_requested-Occurs : (l : List String) (s : String) → is_requested l s ≡ true → Occurs s l
unfolding is_requested
is_requested-Occurs [] s h = ground arith
is_requested-Occurs (i ∷ l) s h = elim (Bool-cases (str_eq i s)) [
  | inl same ↦ inl (sym ((eq_iff i s).0 same))
  | inr other ↦ inr (is_requested-Occurs l s (ground arith))
]

Occurs-is_requested : (l : List String) (s : String) → Occurs s l → is_requested l s ≡ true
unfolding is_requested
Occurs-is_requested [] s h = absurd h
Occurs-is_requested (i ∷ l) s (inl same) = let e = (eq_iff i s).1 (sym same) in ground arith
Occurs-is_requested (i ∷ l) s (inr later) = let e = Occurs-is_requested l s later in ground arith

-- What the code tests, for one interface.
abbrev pub serves : List String → String → Management → Bool
serves interfaces name m = is_served interfaces m && str_eq m.onie_port_name name

serves-Serves :
    (interfaces : List String) (name : String) (m : Management)
    → serves interfaces name m ≡ true
    → Serves interfaces name m
unfolding is_served
serves-Serves interfaces name m h = (
  is_requested-Occurs interfaces m.onie_port_name (ground arith),
  (eq_iff m.onie_port_name name).0 (ground arith),
  λ e. let f = (eq_iff m.onie_port_name "").1 e in ground arith,
  λ e. let f = (eq_iff m.switch_ip "").1 e in ground arith,
)

Serves-serves :
    (interfaces : List String) (name : String) (m : Management)
    → Serves interfaces name m
    → serves interfaces name m ≡ true
unfolding is_served
Serves-serves interfaces name m (requested, same, named, addressed) =
    let r = Occurs-is_requested interfaces m.onie_port_name requested in
    let e = (eq_iff m.onie_port_name name).1 same in
    elim (Bool-cases (str_eq m.onie_port_name "")) [
      | inl bad ↦ absurd (named ((eq_iff m.onie_port_name "").0 bad))
      | inr n ↦ elim (Bool-cases (str_eq m.switch_ip "")) [
        | inl bad ↦ absurd (addressed ((eq_iff m.switch_ip "").0 bad))
        | inr a ↦ ground arith
      ]
    ]

not_serving :
    (interfaces : List String) (name : String) (conn : Connection) (m : Management)
    → conn.management ≡ some m
    → serves interfaces name m ≡ false
    → ¬ ((m : Management) × ServesBy interfaces name conn m)
not_serving interfaces name conn m managed h (m', (managed', served)) =
    let e = Serves-serves interfaces name m' served in
    let same : some m ≡ some m' = sym managed ∙ managed' in ground arith

abbrev pub last_serving : List String → String → List Connection → Option (Connection × Management)
last_serving interfaces name [] = none
last_serving interfaces name (conn ∷ conns) = elim (last_serving interfaces name conns) [
  | some later ↦ some later
  | none ↦ elim conn.management [
    | none ↦ none
    | some m ↦ if serves interfaces name m then some (conn, m) else none
  ]
]

-- What `last_serving` finds.
abbrev pub Found :
    List String → String → List Connection → Option (Connection × Management) → Type 0
Found interfaces name conns none = NoneServes interfaces name conns
Found interfaces name conns (some (conn, m)) = IsLast interfaces name conns conn m

with_first :
    (interfaces : List String) (name : String) (first conn : Connection) (conns : List Connection)
    (m : Management)
    → IsLast interfaces name conns conn m
    → IsLast interfaces name (first ∷ conns) conn m
with_first interfaces name first conn conns m (before, after, e, served, rest) =
    (first ∷ before, after, ap (◌∷◌ first) e, served, rest)

from_here :
    (interfaces : List String) (name : String) (conn : Connection) (conns : List Connection)
    → NoneServes interfaces name conns
    → (o : Option Management) → conn.management ≡ o
    → Found interfaces name (conn ∷ conns) (elim o [
      | none ↦ none
      | some m ↦ if serves interfaces name m then some (conn, m) else none
    ])
from_here interfaces name conn conns rest none managed =
    (λ (m, (managed', served)). ground arith, rest)
from_here interfaces name conn conns rest (some m) managed =
    elim (Bool-cases (serves interfaces name m)) [
      | inl served ↦
          rw served ([], conns, refl, (managed, serves-Serves interfaces name m served), rest)
      | inr unserved ↦ rw unserved (not_serving interfaces name conn m managed unserved, rest)
    ]

from_rest :
    (interfaces : List String) (name : String) (conn : Connection) (conns : List Connection)
    (o : Option (Connection × Management))
    → Found interfaces name conns o
    → Found interfaces name (conn ∷ conns) (elim o [
      | some later ↦ some later
      | none ↦ elim conn.management [
        | none ↦ none
        | some m ↦ if serves interfaces name m then some (conn, m) else none
      ]
    ])
from_rest interfaces name conn conns none rest =
    from_here interfaces name conn conns rest conn.management refl
from_rest interfaces name conn conns (some (k, m)) last =
    with_first interfaces name conn k conns m last

pub last_serving-Found :
    (interfaces : List String) (name : String) (conns : List Connection)
    → Found interfaces name conns (last_serving interfaces name conns)
last_serving-Found interfaces name [] = tt
last_serving-Found interfaces name (conn ∷ conns) =
    from_rest interfaces name conn conns _ (last_serving-Found interfaces name conns)
