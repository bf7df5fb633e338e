-- ===== src/Privacy.antt =====
-- What backend/app/privacy.py leaves of a metric before it is stored or shown. A number or a Boolean is
-- kept as its text with its truth value; a copy is the value itself.
mod Tests
use lab_gpu_server_monitor.Prelude.{
  ◌≡◌, refl, ap, ◌∙◌, Bool, true, false, ◌&&◌, ◌||◌, Option, none, some, List, [], ◌∷◌,
  if◌then◌else◌, Text, codes, text_eq, text_beq_iff, text_beq, ◌==◌, any, all, inl, inr, arith,
  Bool-cases, Option-cases, beq_refl,
}

mutual
  pub data Json : Type 0 where
    null : Json
    scalar : Bool → Text → Json
    text : Text → Json
    array : Items → Json
    object : Fields → Json

  pub data Items : Type 0 where
    no_items : Items
    item : Json → Items → Items

  pub data Fields : Type 0 where
    no_fields : Fields
    field : Text → Json → Fields → Fields

abbrev pub process_resource_fields : List Text
process_resource_fields =
    codes "pid"
    ∷ codes "ppid"
    ∷ codes "cpu"
    ∷ codes "mem"
    ∷ codes "rss_mb"
    ∷ codes "vsz_mb"
    ∷ codes "stat"
    ∷ codes "etimes"
    ∷ codes "mem_mb"
    ∷ []

-- `d.get(key)`
unfoldable pub get_field : Text → Fields → Option Json
get_field key no_fields = none
get_field key (field k v d) = let rest = get_field key d in if k == key then some v else rest

-- `d[key] = value`
unfoldable pub set_field : Text → Json → Fields → Fields
set_field key value no_fields = field key value no_fields
set_field key value (field k v d) =
    let rest = set_field key value d in if k == key then field k value d else field k v rest

-- `{key: d.get(key) for key in keys if key in d}`
unfoldable pub only_fields : List Text → Fields → Fields
only_fields [] d = no_fields
only_fields (key ∷ keys) d =
    let rest = only_fields keys d in
    elim (get_field key d) [ none ↦ rest | some v ↦ field key v rest ]

abbrev pub minimize_process : Fields → Fields
minimize_process d = only_fields process_resource_fields d

unfoldable pub minimize_items : Items → Items
minimize_items no_items = no_items
minimize_items (item (object d) items) = item (object (minimize_process d)) (minimize_items items)
minimize_items (item null items) = minimize_items items
minimize_items (item (scalar b t) items) = minimize_items items
minimize_items (item (text t) items) = minimize_items items
minimize_items (item (array xs) items) = minimize_items items

-- `none` where a `TypeError` is raised, since a number cannot be iterated over. The parts of a text
-- and the keys of an object are no objects.
unfoldable pub minimize_processes : Option Json → Option Json
minimize_processes none = some (array no_items)
minimize_processes (some null) = some (array no_items)
minimize_processes (some (array items)) = some (array (minimize_items items))
minimize_processes (some (text t)) = some (array no_items)
minimize_processes (some (object d)) = some (array no_items)
minimize_processes (some (scalar true t)) = none
minimize_processes (some (scalar false t)) = some (array no_items)

-- the loop over the copied cards
unfoldable pub minimize_cards : Items → Option Items
minimize_cards no_items = some no_items
minimize_cards (item (object d) items) =
    let others = minimize_cards items in
    elim (minimize_processes (get_field (codes "processes") d)) [
      | none ↦ none
      | some processes ↦ elim others [
        | none ↦ none
        | some rest ↦ some (item (object (set_field (codes "processes") processes d)) rest)
      ]
    ]
minimize_cards (item null items) = elim (minimize_cards items) [
  | none ↦ none
  | some rest ↦ some (item null rest)
]
minimize_cards (item (scalar b t) items) = elim (minimize_cards items) [
  | none ↦ none
  | some rest ↦ some (item (scalar b t) rest)
]
minimize_cards (item (text t) items) = elim (minimize_cards items) [
  | none ↦ none
  | some rest ↦ some (item (text t) rest)
]
minimize_cards (item (array xs) items) = elim (minimize_cards items) [
  | none ↦ none
  | some rest ↦ some (item (array xs) rest)
]

-- `none` where a `TypeError` is raised. A text or an object comes back as it is, but for an empty one.
unfoldable pub minimize_gpus : Option Json → Option Json
minimize_gpus none = some (array no_items)
minimize_gpus (some null) = some (array no_items)
minimize_gpus (some (array items)) = elim (minimize_cards items) [
  | none ↦ none
  | some cards ↦ some (array cards)
]
minimize_gpus (some (text [])) = some (array no_items)
minimize_gpus (some (text (c ∷ t))) = some (text (c ∷ t))
minimize_gpus (some (object no_fields)) = some (array no_items)
minimize_gpus (some (object (field k v d))) = some (object (field k v d))
minimize_gpus (some (scalar true t)) = none
minimize_gpus (some (scalar false t)) = some (array no_items)

-- of a dictionary; `none` where a `TypeError` is raised
unfoldable pub minimize_metric : Fields → Option Fields
minimize_metric m = elim (minimize_processes (get_field (codes "processes") m)) [
  | none ↦ none
  | some processes ↦
      let first = set_field (codes "processes") processes m in
      elim (minimize_gpus (get_field (codes "gpus") first)) [
        | none ↦ none
        | some gpus ↦
            some (set_field (codes "users") (array no_items) (set_field (codes "gpus") gpus first))
      ]
]

-- an object whose keys are among some
abbrev pub is_within : List Text → Fields → Bool
is_within keys no_fields = true
is_within keys (field k v d) = any (λ key. key == k) keys && is_within keys d

-- a list of processes of which nothing but the resources is told
abbrev pub are_minimal : Items → Bool
are_minimal no_items = true
are_minimal (item (object d) items) = is_within process_resource_fields d && are_minimal items
are_minimal (item null items) = false
are_minimal (item (scalar b t) items) = false
are_minimal (item (text t) items) = false
are_minimal (item (array xs) items) = false

abbrev pub is_process_list : Option Json → Bool
is_process_list (some (array items)) = are_minimal items
is_process_list (some null) = false
is_process_list (some (scalar b t)) = false
is_process_list (some (text t)) = false
is_process_list (some (object d)) = false
is_process_list none = false

-- cards, each with such a list
abbrev pub are_private : Items → Bool
are_private no_items = true
are_private (item (object d) items) =
    is_process_list (get_field (codes "processes") d) && are_private items
are_private (item null items) = are_private items
are_private (item (scalar b t) items) = are_private items
are_private (item (text t) items) = are_private items
are_private (item (array xs) items) = are_private items

abbrev pub is_card_list : Option Json → Bool
is_card_list (some (array items)) = are_private items
is_card_list (some null) = false
is_card_list (some (scalar b t)) = false
is_card_list (some (text t)) = false
is_card_list (some (object d)) = false
is_card_list none = false

-- what the signatures of the filters take: a list, `null` or nothing
abbrev pub is_listed : Option Json → Bool
is_listed none = true
is_listed (some null) = true
is_listed (some (array items)) = true
is_listed (some (scalar b t)) = false
is_listed (some (text t)) = false
is_listed (some (object d)) = false

-- cards whose processes, where they have any, are such a list
abbrev pub lists_processes : Items → Bool
lists_processes no_items = true
lists_processes (item (object d) items) =
    is_listed (get_field (codes "processes") d) && lists_processes items
lists_processes (item null items) = lists_processes items
lists_processes (item (scalar b t) items) = lists_processes items
lists_processes (item (text t) items) = lists_processes items
lists_processes (item (array xs) items) = lists_processes items

abbrev pub are_listed_cards : Option Json → Bool
are_listed_cards none = true
are_listed_cards (some null) = true
are_listed_cards (some (array items)) = lists_processes items
are_listed_cards (some (scalar b t)) = false
are_listed_cards (some (text t)) = false
are_listed_cards (some (object d)) = false

get_field-set_field :
    (k j : Text) (v : Json) (d : Fields)
    → get_field j (set_field k v d) ≡ (if k == j then some v else get_field j d)
unfolding get_field set_field
get_field-set_field k j v no_fields = refl
get_field-set_field k j v (field i w d) =
    ground
      (arith, text_beq_iff k j, text_beq_iff i k, text_beq_iff i j, get_field-set_field k j v d)

get_field_set : (k : Text) (v : Json) (d : Fields) → get_field k (set_field k v d) ≡ some v
get_field_set k v d = get_field-set_field k k v d ∙ rw (beq_refl k) refl

get_field_kept :
    (k j : Text) (v : Json) (d : Fields)
    → (k == j) ≡ false
    → get_field j (set_field k v d) ≡ get_field j d
get_field_kept k j v d other = get_field-set_field k j v d ∙ rw other refl

is_within-only_fields :
    (known keys : List Text) (d : Fields)
    → all (λ key. any (λ k. k == key) known) keys ≡ true
    → is_within known (only_fields keys d) ≡ true
unfolding only_fields
is_within-only_fields known [] d h = refl
is_within-only_fields known (key ∷ keys) d h = elim (Option-cases (get_field key d)) [
  | inl missing ↦ rw (only_fields, missing) (is_within-only_fields known keys d (ground (arith, h)))
  | inr (v, there) ↦ rw (only_fields, there) (ground (arith, h, is_within-only_fields known keys d))
]

are_minimal-minimize_items : (items : Items) → are_minimal (minimize_items items) ≡ true
unfolding minimize_items text_beq
are_minimal-minimize_items no_items = refl
are_minimal-minimize_items (item (object d) items) = ground (
  arith,
  is_within-only_fields process_resource_fields process_resource_fields d refl,
  are_minimal-minimize_items items,
)
are_minimal-minimize_items (item null items) = are_minimal-minimize_items items
are_minimal-minimize_items (item (scalar b t) items) = are_minimal-minimize_items items
are_minimal-minimize_items (item (text t) items) = are_minimal-minimize_items items
are_minimal-minimize_items (item (array xs) items) = are_minimal-minimize_items items

minimize_processes-listed :
    (o : Option Json)
    → is_listed o ≡ true
    → (v : Json) × (minimize_processes o ≡ some v) × (is_process_list (some v) ≡ true)
unfolding minimize_processes
minimize_processes-listed none h = (array no_items, refl, refl)
minimize_processes-listed (some null) h = (array no_items, refl, refl)
minimize_processes-listed (some (array items)) h =
    (array (minimize_items items), refl, are_minimal-minimize_items items)
minimize_processes-listed (some (scalar b t)) h = absurd (ground arith)
minimize_processes-listed (some (text t)) h = absurd (ground arith)
minimize_processes-listed (some (object d)) h = absurd (ground arith)

minimize_cards-listed :
    (items : Items)
    → lists_processes items ≡ true
    → (cards : Items) × (minimize_cards items ≡ some cards) × (are_private cards ≡ true)
unfolding minimize_cards
minimize_cards-listed no_items h = (no_items, refl, refl)
minimize_cards-listed (item (object d) items) h =
    let key = codes "processes" in
    let (v, put, fine) = minimize_processes-listed (get_field key d) (ground (arith, h)) in
    let (rest, more, others) = minimize_cards-listed items (ground (arith, h)) in
    let listed : is_process_list (get_field key (set_field key v d)) ≡ true =
      ap is_process_list (get_field_set key v d) ∙ fine in
    (
      item (object (set_field key v d)) rest,
      rw (minimize_cards, put, more) refl,
      ground (arith, listed, others),
    )
minimize_cards-listed (item null items) h =
    let (rest, more, others) = minimize_cards-listed items h in
    (item null rest, rw (minimize_cards, more) refl, others)
minimize_cards-listed (item (scalar b t) items) h =
    let (rest, more, others) = minimize_cards-listed items h in
    (item (scalar b t) rest, rw (minimize_cards, more) refl, others)
minimize_cards-listed (item (text t) items) h =
    let (rest, more, others) = minimize_cards-listed items h in
    (item (text t) rest, rw (minimize_cards, more) refl, others)
minimize_cards-listed (item (array xs) items) h =
    let (rest, more, others) = minimize_cards-listed items h in
    (item (array xs) rest, rw (minimize_cards, more) refl, others)

minimize_gpus-listed :
    (o : Option Json)
    → are_listed_cards o ≡ true
    → (v : Json) × (minimize_gpus o ≡ some v) × (is_card_list (some v) ≡ true)
unfolding minimize_gpus
minimize_gpus-listed none h = (array no_items, refl, refl)
minimize_gpus-listed (some null) h = (array no_items, refl, refl)
minimize_gpus-listed (some (array items)) h =
    let (cards, read, fine) = minimize_cards-listed items h in
    (array cards, rw (minimize_gpus, read) refl, fine)
minimize_gpus-listed (some (scalar b t)) h = absurd (ground arith)
minimize_gpus-listed (some (text t)) h = absurd (ground arith)
minimize_gpus-listed (some (object d)) h = absurd (ground arith)

-- Of a metric whose processes and GPUs are lists, `null` or missing, and so are the processes of
-- every GPU that is an object, the filter succeeds: the logins are then an empty list, every
-- process, on the GPUs too, is an object with none but the resource fields, and any field but
-- `processes`, `gpus` and `users` is as it was.
pub minimize_metric_private :
    (m : Fields) (k : Text)
    → is_listed (get_field (codes "processes") m) ≡ true
    → are_listed_cards (get_field (codes "gpus") m) ≡ true
    → any (λ t. t == k) (codes "processes" ∷ codes "gpus" ∷ codes "users" ∷ []) ≡ false
    → (out : Fields) × (minimize_metric m ≡ some out)
      × (get_field (codes "users") out ≡ some (array no_items))
      × (is_process_list (get_field (codes "processes") out) ≡ true)
      × (is_card_list (get_field (codes "gpus") out) ≡ true)
      × (get_field k out ≡ get_field k m)
unfolding minimize_metric text_beq
minimize_metric_private m k listed carded other =
    let processes = codes "processes" in
    let gpus = codes "gpus" in
    let users = codes "users" in
    let (put, read, minimal) = minimize_processes-listed (get_field processes m) listed in
    let first = set_field processes put m in
    let same : get_field gpus first ≡ get_field gpus m = get_field_kept processes gpus put m refl in
    let (cards, shown, hidden) =
      minimize_gpus-listed (get_field gpus first) (ap are_listed_cards same ∙ carded) in
    let second = set_field gpus cards first in
    let none_in = array no_items in
    (
      set_field users none_in second,
      rw (minimize_metric, read, shown) refl,
      get_field_set users none_in second,
      ap is_process_list (
            get_field_kept users processes none_in second refl
            ∙ get_field_kept gpus processes cards first refl
            ∙ get_field_set processes put m)
          ∙ minimal,
      ap is_card_list
            (get_field_kept users gpus none_in second refl ∙ get_field_set gpus cards first)
          ∙ hidden,
      get_field_kept users k none_in second (ground (arith, other))
          ∙ get_field_kept gpus k cards first (ground (arith, other))
          ∙ get_field_kept processes k put m (ground (arith, other)),
    )
