-- ===== src/Rankings/Top.antt =====
-- The ranking of traffic and the top three of a ranking (internal/store/rankings.go). The sums of bytes
-- that the source keeps as float64 are exact below 2^53 and are numbers here. Of entries with distinct
-- UUIDs sort.Slice has one result, so the model sorts by insertion.
use mathlib.Core.List.{Perm}
use mathlib.Core.List.Perm
use Prim.Native.Char.{code}
use vibemonitor.Prelude.{
  ℕ, zero, suc, ◌+◌, ◌≤◌, ◌≡◌, refl, sym, ap, min, length-take, length-drop, Bool, true, false,
  ◌&&◌, List, [], ◌∷◌, ◌++◌, String, if◌then◌else◌, ltb, leb, ◌==◌, arith, All, take, drop, length,
  take-append-drop, Bool-cases, inl, inr,
}
use vibemonitor.Billing.Daily.{DailyTraffic}

-- `<` on strings: the order of their code points is that of their UTF-8 bytes.
unfoldable pub str_less : String → String → Bool
str_less String.[] String.[] = false
str_less String.[] (String.◌∷◌ d t) = true
str_less (String.◌∷◌ c s) String.[] = false
str_less (String.◌∷◌ c s) (String.◌∷◌ d t) =
    let rest = str_less s t in
    if ltb (code c) (code d) then true else if code c == code d then rest else false

pub record RankingEntry : Type 0 where
  pub uuid : String
  pub name : String
  pub value : ℕ
  pub samples : ℕ

-- The sum of a node's days from the first to the last, and their number.
unfoldable pub sum_days : ℕ → ℕ → DailyTraffic → ℕ × ℕ
sum_days first last [] = (0, 0)
sum_days first last ((day, value) ∷ daily) =
    let (sum, samples) = sum_days first last daily in
    if leb first day && leb day last then (sum + value, samples + 1) else (sum, samples)

pub record TrafficNode : Type 0 where
  pub id : String
  pub name : String
  pub daily : DailyTraffic

-- The nodes that have days on record in the period.
unfoldable pub traffic_entries : ℕ → ℕ → List TrafficNode → List RankingEntry
unfolding sum_days
traffic_entries first last [] = []
traffic_entries first last (n ∷ nodes) =
    let entries = traffic_entries first last nodes in
    let (sum, samples) = sum_days first last n.daily in
    if ltb 0 samples
    then record { uuid = n.id; name = n.name; value = sum; samples = samples } ∷ entries
    else entries

-- The function that `topThree` sorts by.
unfoldable pub precedes : RankingEntry → RankingEntry → Bool
unfolding str_less
precedes a b = if a.value == b.value then str_less a.uuid b.uuid else ltb b.value a.value

unfoldable pub insert_entry : RankingEntry → List RankingEntry → List RankingEntry
insert_entry e [] = e ∷ []
insert_entry e (x ∷ entries) =
    let rest = insert_entry e entries in if precedes x e then x ∷ rest else e ∷ x ∷ entries

unfoldable pub sort_entries : List RankingEntry → List RankingEntry
unfolding insert_entry precedes
sort_entries [] = []
sort_entries (e ∷ entries) = insert_entry e (sort_entries entries)

unfoldable pub top_three : List RankingEntry → List RankingEntry
unfolding sort_entries
top_three entries =
    let sorted = sort_entries entries in if ltb 3 (length sorted) then take 3 sorted else sorted

abbrev pub AtMost : ℕ → List RankingEntry → Type 0
AtMost v entries = All (λ e. e.value ≤ v) entries

abbrev pub Descending : List RankingEntry → Type 0
Descending [] = Unit
Descending (e ∷ entries) = AtMost e.value entries × Descending entries

AtMost-mono : (v w : ℕ) (entries : List RankingEntry) → v ≤ w → AtMost v entries → AtMost w entries
AtMost-mono v w [] le h = tt
AtMost-mono v w (e ∷ entries) le h = (omega (arith, le, h.0), AtMost-mono v w entries le h.1)

AtMost-insert :
    (v : ℕ) (e : RankingEntry) (entries : List RankingEntry)
    → e.value ≤ v
    → AtMost v entries
    → AtMost v (insert_entry e entries)
unfolding insert_entry
AtMost-insert v e [] le h = (le, tt)
AtMost-insert v e (x ∷ entries) le h = elim (Bool-cases (precedes x e)) [
  | inl before ↦ rw before (h.0, AtMost-insert v e entries le h.1)
  | inr after ↦ rw after (le, h)
]

precedes_value : (x e : RankingEntry) → precedes x e ≡ true → e.value ≤ x.value
unfolding precedes
precedes_value x e h = ground (arith, h)

not_precedes_value : (x e : RankingEntry) → precedes x e ≡ false → x.value ≤ e.value
unfolding precedes
not_precedes_value x e h = ground (arith, h)

insert-Descending :
    (e : RankingEntry) (entries : List RankingEntry)
    → Descending entries
    → Descending (insert_entry e entries)
unfolding insert_entry
insert-Descending e [] h = (tt, tt)
insert-Descending e (x ∷ entries) h = elim (Bool-cases (precedes x e)) [
  | inl before ↦ rw before (
    AtMost-insert x.value e entries (precedes_value x e before) h.0,
    insert-Descending e entries h.1,
  )
  | inr after ↦
      let le : x.value ≤ e.value = not_precedes_value x e after in
      rw after ((le, AtMost-mono x.value e.value entries le h.0), h)
]

sort-Descending : (entries : List RankingEntry) → Descending (sort_entries entries)
unfolding sort_entries
sort-Descending [] = tt
sort-Descending (e ∷ entries) = insert-Descending e (sort_entries entries) (sort-Descending entries)

insert_perm :
    (e : RankingEntry) (entries : List RankingEntry) → Perm (insert_entry e entries) (e ∷ entries)
unfolding insert_entry
insert_perm e [] = Perm.refl (e ∷ [])
insert_perm e (x ∷ entries) = elim (Bool-cases (precedes x e)) [
  | inl before ↦
      rw before (Perm.trans (Perm.cons x (insert_perm e entries)) (Perm.swap e x entries))
  | inr after ↦ rw after (Perm.refl (e ∷ x ∷ entries))
]

sort_perm : (entries : List RankingEntry) → Perm (sort_entries entries) entries
unfolding sort_entries
sort_perm [] = Perm.refl []
sort_perm (e ∷ entries) =
    Perm.trans (insert_perm e (sort_entries entries)) (Perm.cons e (sort_perm entries))

-- Of a descending list, what is taken is not below what is dropped.
take_above :
    (n : ℕ) (entries : List RankingEntry)
    → Descending entries
    → All (λ e. AtMost e.value (drop n entries)) (take n entries)
take_above zero entries h = tt
take_above (suc n) [] h = tt
take_above (suc n) (e ∷ entries) h = (AtMost-drop n e.value entries h.0, take_above n entries h.1)
  where
    AtMost-drop :
        (n v : ℕ) (entries : List RankingEntry) → AtMost v entries → AtMost v (drop n entries)
    AtMost-drop zero v entries h = h
    AtMost-drop (suc n) v [] h = tt
    AtMost-drop (suc n) v (e ∷ entries) h = AtMost-drop n v entries h.1

top_three-take : (entries : List RankingEntry) → top_three entries ≡ take 3 (sort_entries entries)
unfolding top_three
top_three-take entries = elim (Bool-cases (ltb 3 (length (sort_entries entries)))) [
  | inl long ↦ rw long refl
  | inr short ↦ rw short (sym (take_all 3 (sort_entries entries) (ground (arith, short))))
]
  where
    take_all : (n : ℕ) (xs : List RankingEntry) → length xs ≤ n → take n xs ≡ xs
    take_all zero [] h = refl
    take_all zero (x ∷ xs) h = absurd (omega (arith, h))
    take_all (suc n) [] h = refl
    take_all (suc n) (x ∷ xs) h = ap (◌∷◌ x) (take_all n xs (omega (arith, h)))

-- What a ranking shows and what it leaves out are together exactly the entries; it shows three, or all
-- if there are fewer, in descending order, and none with a lower value than one that it leaves out.
pub top_three_lem :
    (entries : List RankingEntry)
    → (rest : List RankingEntry) × Perm (top_three entries ++ rest) entries
      × (length (top_three entries) ≡ min 3 (length (top_three entries) + length rest))
      × Descending (top_three entries ++ rest)
      × All (λ e. AtMost e.value rest) (top_three entries)
top_three_lem entries =
    let s : List RankingEntry = sort_entries entries in
    rw (top_three-take entries) (
      drop 3 s,
      rw (take-append-drop 3 s) (sort_perm entries),
      omega (arith, length-take 3 s, length-drop 3 s),
      rw (take-append-drop 3 s) (sort-Descending entries),
      take_above 3 s (sort-Descending entries),
    )
