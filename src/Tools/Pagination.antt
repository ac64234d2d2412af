-- ===== src/Tools/Pagination.antt =====
-- mcpserver/tools/utils.go: `ApplyPagination` and the texts on its result.
pub mod Pages
use mcp_bsl_lsp_bridge.Prelude.{
  ℕ, zero, suc, ◌+◌, ◌-◌, ◌^◌, Bool, true, false, ◌||◌, List, [], ◌∷◌, if◌then◌else◌, ltb, leb,
  length, take, drop,
}
use mcp_bsl_lsp_bridge.Prelude.Int.{ℤ, pos, negsuc, diff, is_below, ◌-ℤ◌}

pub record PaginationResult : Type 0 where
  pub offset : ℕ
  pub limit : ℤ
  pub total : ℕ
  pub start : ℕ
  pub end_index : ℕ
  pub count : ℕ
  pub has_more : Bool
  pub has_previous : Bool

pub data Page (A : Type 0) : Type 0 where
  page : List A → PaginationResult → Page A
  panic : Page A

-- `offset + limit` on `int`, where the offset is not negative.
abbrev pub add_limit : ℕ → ℤ → ℤ
add_limit offset (pos limit) =
    if ltb (offset + limit) (2 ^ 63)
    then pos (offset + limit)
    else negsuc (2 ^ 64 - 1 - (offset + limit))
add_limit offset (negsuc n) = diff offset (suc n)

-- `if end > total { end = total }`
abbrev pub at_most : ℕ → ℤ → ℤ
at_most total (pos n) = if ltb total n then pos total else pos n
at_most total (negsuc n) = negsuc n

module _ {A : Type 0} where
  -- From the slice on, where the slice panics when its end lies before its start.
  abbrev pub page_from : List A → ℕ → ℤ → ℤ → Page A
  page_from items offset limit (negsuc n) = panic
  page_from items offset limit (pos end) =
      let paginated = take (end - offset) (drop offset items) in
      if ltb end offset
      then panic
      else page paginated (record {
        offset = offset;
        limit = limit;
        total = length items;
        start = suc offset;
        end_index = end;
        count = length paginated;
        has_more = ltb end (length items);
        has_previous = ltb 0 offset;
      })

  -- From the test of the offset on, where it is not negative any more.
  abbrev pub paginate : List A → ℕ → ℤ → Page A
  paginate items offset limit =
      if leb (length items) offset
      then page [] (record {
        offset = offset;
        limit = limit;
        total = length items;
        start = 0;
        end_index = 0;
        count = 0;
        has_more = false;
        has_previous = ltb 0 offset;
      })
      else page_from items offset limit (at_most (length items) (add_limit offset limit))

  unfoldable pub apply_pagination : List A → ℤ → ℤ → Page A
  apply_pagination items (pos offset) limit = paginate items offset limit
  apply_pagination items (negsuc n) limit = paginate items 0 limit
