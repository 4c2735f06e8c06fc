-- ===== src/Timeline/Paging.antt =====
-- Walking the pages of a timeline (query of internal/timeline/timeline.go).
use oneops.Base.{
  ℕ, zero, suc, ◌+◌, ◌-◌, ◌<◌, ◌≤◌, ◌%◌, ◌^◌, ◌≡◌, refl, ap, sym, ◌∙◌, inl, inr, true, false,
  Option, none, some, List, [], ◌++◌, filter, take, drop, length, take-drop, drop-drop, drop-all,
  Bool-cases, arith, if◌then◌else◌, leb,
}
use mathlib.Core.List.{Permᴰ}
use oneops.Base.Sorting.{text_le_total, Ascending, Ascending-sort_by, Permᴰ-sort_by}
use oneops.Domain.Errors.{Result, ok, err}
use oneops.Audit.Hash.{int64_lt}
use oneops.Audit.Tables.{int64_le}
use oneops.Timeline.Entries.{Entry}
use oneops.Timeline.Service.{
  Filter, Page, limit_of, entry_le, entry_less, sort_entries, passes, filter_entries, paginate,
  query, corr_key,
}

abbrev prepend : List Entry → Option (List Entry) → Option (List Entry)
prepend es none = none
prepend es (some rest) = some (es ++ rest)

-- What a page and the walk from its next offset give.
abbrev after_page : Option Page → (ℕ → Option (List Entry)) → Option (List Entry)
after_page none next = none
after_page (some p) next = elim p.next_offset [
  | none ↦ some p.entries
  | some off ↦ prepend p.entries (next off)
]

abbrev after_query : Result (Option Page) → (ℕ → Option (List Entry)) → Option (List Entry)
after_query (ok page) next = after_page page next
after_query (err x) next = none

-- The entries of all pages of a query from a filter's offset on, by the offsets that the pages give.
-- `none` is an error, a panic or the end of the fuel.
unfoldable pub walk : ℕ → Filter → Result (List Entry) → Option (List Entry)
walk zero f gathered = none
walk (suc fuel) f gathered =
    after_query (query f gathered) (λ off. walk fuel (record f { offset = off }) gathered)

entry_le_total : (a b : Entry) → entry_le a b ≡ false → entry_le b a ≡ true
unfolding entry_less
entry_le_total a b h = ground (arith, h, text_le_total (corr_key a) (corr_key b))

-- A page inside the list ends where the next one starts.
page-split :
    (off limit : ℕ) (es : List Entry)
    → take limit (drop off es) ++ drop (off + limit) es ≡ drop off es
page-split off limit es =
    ap (λ (r : List Entry). take limit (drop off es) ++ r) (sym (drop-drop limit off es))
    ∙ take-drop limit (drop off es)

-- The entries of a query, in order.
abbrev pub listed : Filter → List Entry → List Entry
listed f entries = sort_entries (filter_entries f entries)

-- A page, where no number wraps.
abbrev page_of : ℕ → ℕ → List Entry → Page
page_of off limit es =
    if leb (length es) off
    then record { entries = []; next_offset = none }
    else (if leb (length es) (off + limit)
        then record { entries = drop off es; next_offset = none }
        else record { entries = take limit (drop off es); next_offset = some (off + limit) })

paginate-page_of :
    (es : List Entry) (f : Filter)
    → length es + limit_of f < 2 ^ 63
    → f.offset ≤ length es
    → paginate es f ≡ some (page_of f.offset (limit_of f) es)
unfolding paginate
paginate-page_of es f small inside =
    let off = f.offset in
    let l = limit_of f in
    let p : int64_lt off 0 ≡ false = ground (arith, small, inside) in
    let e : (off + l) % 2 ^ 64 ≡ off + l = omega (arith, small, inside) in
    let q : int64_le (length es) (off + l) ≡ leb (length es) (off + l) =
      ground (arith, small, inside) in
    let r : int64_lt (off + l) off ≡ false = ground (arith, small, inside) in
    let t : off + l - off ≡ l = omega arith in
    elim (Bool-cases (leb (length es) off)) [
      | inl a ↦ rw (p, a) refl
      | inr a ↦ elim (Bool-cases (leb (length es) (off + l))) [
        | inl b ↦ rw (p, a, e, q, b) refl
        | inr b ↦ rw (p, a, e, q, b, r, t) refl
      ]
    ]

limit_of-pos : (f : Filter) → 1 ≤ limit_of f
limit_of-pos f = ground arith

module _ (entries : List Entry) where
  walk-drop :
      (fuel : ℕ) (f : Filter)
      → let es = listed f entries in
        length es + limit_of f < 2 ^ 63
        → f.offset ≤ length es
        → length es < f.offset + fuel
        → walk fuel f (ok entries) ≡ some (drop f.offset es)
  unfolding walk query
  walk-drop zero f small inside enough = absurd (omega (arith, inside, enough))
  walk-drop (suc fuel) f small inside enough =
      let es = listed f entries in
      let off = f.offset in
      let l = limit_of f in
      let pos = limit_of-pos f in
      let next = λ (o : ℕ). walk fuel (record f { offset = o }) (ok entries) in
      let paged =
        ap (λ (o : Option Page). after_page o next) (paginate-page_of es f small inside) in
      paged ∙ elim (Bool-cases (leb (length es) off)) [
        | inl a ↦ rw a (ap (λ (r : List Entry). some r) (sym (drop-all off es (ground (arith, a)))))
        | inr a ↦ elim (Bool-cases (leb (length es) (off + l))) [
          | inl b ↦ rw (a, b) refl
          | inr b ↦
              rw (a, b)
                (ap (prepend (take l (drop off es))) (
                    walk-drop fuel (record f { offset = off + l }) small (ground (arith, b))
                      (omega (arith, enough, pos)))
                  ∙ ap (λ (r : List Entry). some r) (page-split off l es))
        ]
      ]

-- Where a query's length and limit are int64s, following the offsets of its pages from the first one
-- ends, with neither a panic nor an error, and gives every entry that passes the filter exactly once,
-- in the order of time, component and key.
pub walk-listed :
    (fuel : ℕ) (f : Filter) (entries : List Entry)
    → f.offset ≡ 0
    → length (listed f entries) + limit_of f < 2 ^ 63
    → length (listed f entries) < fuel
    → (walk fuel f (ok entries) ≡ some (listed f entries))
      × Ascending entry_le (listed f entries)
      × Permᴰ (filter (passes f) entries) (listed f entries)
unfolding sort_entries filter_entries
walk-listed fuel f entries first small enough = (
  walk-drop entries fuel f small (omega (arith, first)) (omega (arith, first, enough))
      ∙ ap (λ (k : ℕ). some (drop k (listed f entries))) first,
  Ascending-sort_by entry_le entry_le_total (filter (passes f) entries),
  Permᴰ-sort_by entry_le (filter (passes f) entries),
)
