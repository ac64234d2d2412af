-- ===== src/Tests/Wire.antt =====
-- Tests of the wire format and of the text edits.
use mcp_bsl_lsp_bridge.Prelude.{List, [], ◌∷◌, ◌++◌, ◌≡◌, refl, arith, some, none}
use mcp_bsl_lsp_bridge.Prelude.Int.{negsuc}
use mcp_bsl_lsp_bridge.Prelude.Bytes.{Bytes, codes, number_from}
use mcp_bsl_lsp_bridge.Framing.{ok, panic, read_message, write_message, proxy_read_message, atoi}
use mcp_bsl_lsp_bridge.Framing.RoundTrip.{
  read_message-write_message, proxy_read_message-write_message,
}
use mcp_bsl_lsp_bridge.Framing.Errors.{negative_header, negative_length-panic}
use mcp_bsl_lsp_bridge.Edits.{
  TextEdit, split_lines, join_lines, apply_edit, apply_sorted, sort_edits, sort_rounds, exchange,
  starts_before, apply_text_edits_to_content,
}
use mcp_bsl_lsp_bridge.Prelude.{Bool}
use mcp_bsl_lsp_bridge.Edits.Order.{Descending, count, sort_edits-Descending}
use mcp_bsl_lsp_bridge.Edits.Splice.{offset, splice, join_lines-apply_edit}
use mcp_bsl_lsp_bridge.Edits.Lines.{join_lines-split_lines}

abbrev body : Bytes
body = codes "{}"

abbrev more : Bytes
more = codes "Con"

read_message-write_message_example : read_message (write_message body ++ more) ≡ ok body more
read_message-write_message_example =
    read_message-write_message body more (omega arith) (omega arith)

proxy_read_message-write_message_example :
    proxy_read_message (write_message body ++ more) ≡ ok (write_message body) more
proxy_read_message-write_message_example =
    proxy_read_message-write_message body more (omega arith) (omega arith)

negative_length-panic_example :
    (read_message (negative_header 1 more) ≡ panic)
    × (proxy_read_message (negative_header 1 more) ≡ panic)
negative_length-panic_example = negative_length-panic 0 more (omega arith)

atoi_example : (atoi (codes "-12") ≡ some (negsuc 11)) × (atoi (codes "1x") ≡ none)
unfolding atoi number_from
atoi_example = (refl, refl)

abbrev program : Bytes
program = codes "one\ntwo\nthree"

abbrev lines : List Bytes
lines = codes "one" ∷ codes "two" ∷ codes "three" ∷ []

abbrev edit : TextEdit
edit = record { start_line = 0; start_char = 1; end_line = 1; end_char = 2; new_text = codes "X" }

join_lines-apply_edit_example :
    join_lines (apply_edit lines edit)
    ≡ splice (offset lines 0 1) (offset lines 1 2) (codes "X") (join_lines lines)
join_lines-apply_edit_example = join_lines-apply_edit lines edit (record {
  start_line = omega arith;
  end_line = omega arith;
  start_char = omega arith;
  end_char = omega arith;
})

apply_text_edits_to_content_example :
    apply_text_edits_to_content program (edit ∷ []) ≡ codes "oXo\nthree"
unfolding apply_text_edits_to_content join_lines apply_sorted sort_edits sort_rounds exchange
    apply_edit split_lines starts_before
apply_text_edits_to_content_example = refl

-- Two insertions at one position come out in the reverse of the order in which they stand.
abbrev insertion : Bytes → TextEdit
insertion text = record {
  start_line = 0;
  start_char = 0;
  end_line = 0;
  end_char = 0;
  new_text = text;
}

same_position_example :
    apply_text_edits_to_content (codes "z") (insertion (codes "a") ∷ insertion (codes "b") ∷ [])
    ≡ codes "baz"
unfolding apply_text_edits_to_content join_lines apply_sorted sort_edits sort_rounds exchange
    apply_edit split_lines starts_before
same_position_example = refl

join_lines-split_lines_example : join_lines (split_lines program) ≡ program
join_lines-split_lines_example = join_lines-split_lines program

abbrev two_edits : List TextEdit
two_edits = edit ∷ record edit { start_line = 1; start_char = 0 } ∷ []

sort_edits-Descending_example :
    Descending (sort_edits two_edits)
    × ((p : TextEdit → Bool) → count p (sort_edits two_edits) ≡ count p two_edits)
sort_edits-Descending_example = sort_edits-Descending two_edits
