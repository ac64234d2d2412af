-- ===== src/Tools/Pagination/Pages.antt =====
-- The pages of a list.
use native.Mathlib.Nat.{zero-add, suc-add}
use mcp_bsl_lsp_bridge.Prelude.{
  ℕ, zero, suc, ◌+◌, ◌-◌, ◌<◌, ◌≤◌, ◌^◌, true, false, List, [], ◌∷◌, ◌++◌, ◌≡◌, refl, sym, ap, ◌∙◌,
  arith, ltb, length, take, drop, leb-false, ltb-false, lt→ltb, ltb→lt, ltb-le, Bool-cases, inl,
  inr, take-append-drop, length-drop,
}
use mcp_bsl_lsp_bridge.Prelude.Int.{ℤ, pos, negsuc}
use mcp_bsl_lsp_bridge.Tools.Pagination.{
  Page, page, panic, add_limit, at_most, page_from, apply_pagination,
}

abbrev pub items_of : {A : Type 0} → Page A → List A
items_of (page items result) = items
items_of panic = []

abbrev pub next_offset : {A : Type 0} → Page A → ℕ
next_offset (page items result) = result.end_index
next_offset panic = 0

module _ {A : Type 0} where
  take-all : (xs : List A) (n : ℕ) → length xs ≤ n → take n xs ≡ xs
  take-all [] zero h = refl
  take-all [] (suc n) h = refl
  take-all (x ∷ xs) zero h = absurd (omega arith)
  take-all (x ∷ xs) (suc n) h = ap (◌∷◌ x) (take-all xs n (omega arith))

  drop-nil : (n : ℕ) → drop {A = A} n [] ≡ []
  drop-nil zero = refl
  drop-nil (suc n) = refl

  drop-drop : (xs : List A) (n m : ℕ) → drop n (drop m xs) ≡ drop (m + n) xs
  drop-drop xs n zero = rw zero-add refl
  drop-drop [] n (suc m) = drop-nil n ∙ sym (drop-nil (suc m + n))
  drop-drop (x ∷ xs) n (suc m) = rw suc-add (drop-drop xs n m)

  length-take : (n : ℕ) (xs : List A) → n ≤ length xs → length (take n xs) ≡ n
  length-take zero xs h = refl
  length-take (suc n) [] h = absurd (omega arith)
  length-take (suc n) (x ∷ xs) h = ap suc (length-take n xs (omega arith))

  page_from-cover :
      (items : List A) (offset e : ℕ) (limit : ℤ)
      → offset ≤ e
      → e ≤ length items
      → (items_of (page_from items offset limit (pos e))
            ++ drop (next_offset (page_from items offset limit (pos e))) items
          ≡ drop offset items)
        × (next_offset (page_from items offset limit (pos e)) ≡ e)
        × (offset + length (items_of (page_from items offset limit (pos e))) ≡ e)
  page_from-cover items offset e limit low high =
      let n : offset + (e - offset) ≡ e = omega arith in
      rw (ltb-false offset e low) (
        ap (λ k. take (e - offset) (drop offset items) ++ drop k items) (sym n)
            ∙ ap (λ k. take (e - offset) (drop offset items) ++ k)
                (sym (drop-drop items (e - offset) offset))
            ∙ take-append-drop (e - offset) (drop offset items),
        refl,
        omega (arith, length-take (e - offset) (drop offset items), length-drop offset items),
      )

-- The end of a page that does not overflow: `limit` items further, or the end of the list.
end-at_most :
    (offset limit total : ℕ)
    → offset < total
    → total < 2 ^ 63
    → offset + limit < 2 ^ 63
    → (e : ℕ) × (at_most total (add_limit offset (pos limit)) ≡ pos e)
      × (offset ≤ e)
      × (e ≤ total)
      × (e ≤ offset + limit)
end-at_most offset limit total h t fits =
    let s : ltb (offset + limit) (2 ^ 63) ≡ true = lt→ltb (offset + limit) (2 ^ 63) fits in
    elim (Bool-cases (ltb total (offset + limit))) [
      | inl over ↦ (
        total,
        rw s (rw over refl),
        omega arith,
        omega arith,
        omega (arith, ltb→lt total (offset + limit) over),
      )
      | inr under ↦ (
        offset + limit,
        rw s (rw under refl),
        omega arith,
        ltb-le total (offset + limit) under,
        omega arith,
      )
    ]

-- A page that begins inside the list, with a limit that is not negative and whose sum with the
-- offset is below 2^63, so that it does not wrap around (the length of a list is below it too): the
-- page and what the list has from its end index on are together what the list has from the offset
-- on; the end index is the offset and the number of items; and there are at most `limit` of them.
pub apply_pagination-cover :
    {A : Type 0} (items : List A) (offset limit : ℕ)
    → offset < length items
    → length items < 2 ^ 63
    → offset + limit < 2 ^ 63
    → (items_of (apply_pagination items (pos offset) (pos limit))
          ++ drop (next_offset (apply_pagination items (pos offset) (pos limit))) items
        ≡ drop offset items)
      × (offset + length (items_of (apply_pagination items (pos offset) (pos limit)))
          ≡ next_offset (apply_pagination items (pos offset) (pos limit)))
      × (length (items_of (apply_pagination items (pos offset) (pos limit))) ≤ limit)
unfolding apply_pagination
apply_pagination-cover items offset limit h t fits =
    let (e, at, low, high, near) = end-at_most offset limit (length items) h t fits in
    let (whole, next, count) = page_from-cover items offset e (pos limit) low high in
    rw (leb-false offset (length items) h) (rw at (whole, count ∙ sym next, omega (arith, count)))

-- A negative limit makes the slice end before it starts, and the call panics, at every offset
-- inside the list.
pub apply_pagination-panic :
    {A : Type 0} (items : List A) (offset n : ℕ)
    → offset < length items
    → apply_pagination items (pos offset) (negsuc n) ≡ panic
unfolding apply_pagination
apply_pagination-panic items offset n h =
    rw (leb-false offset (length items) h) (elim (Bool-cases (ltb offset (suc n))) [
      | inl below ↦ rw below refl
      | inr above ↦
          let small : ltb (length items) (offset - suc n) ≡ false =
            ltb-false (offset - suc n) (length items) (omega arith) in
          let short : ltb (offset - suc n) offset ≡ true =
            lt→ltb (offset - suc n) offset (omega (arith, ltb-le offset (suc n) above)) in
          rw above (rw small (rw short refl))
    ])
