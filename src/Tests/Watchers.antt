-- ===== src/Tests/Watchers.antt =====
-- Tests of the file watchers.
use mcp_bsl_lsp_bridge.Prelude.{Bool, true, false, [], ◌∷◌, ◌≡◌, refl, none, All, String, string_eq}
use mcp_bsl_lsp_bridge.Prelude.Int.{ℤ, pos, int_eq}
use mcp_bsl_lsp_bridge.Prelude.Dict
use mcp_bsl_lsp_bridge.Prelude.Dict.{Dict, Distinct}
use mcp_bsl_lsp_bridge.Session.Watch.{
  FileChangeType, deleted, FileEvent, collect_all, compare_files, check_for_changes,
}
use mcp_bsl_lsp_bridge.Session.Watch.Polling.{
  IsChange, Reports, compare_files-IsChange, compare_files-Reports, check_for_changes-lost,
}
use mcp_bsl_lsp_bridge.Session.Watch.Debounce.{follow_all, collect_all-follow_all}

abbrev before : Dict String ℤ
before = ("a.bsl", pos 1) ∷ ("b.bsl", pos 1) ∷ []

abbrev after : Dict String ℤ
after = ("b.bsl", pos 2) ∷ ("c.bsl", pos 2) ∷ []

before-Distinct : Distinct before
unfolding Dict.get
before-Distinct = (refl, (refl, tt))

after-Distinct : Distinct after
unfolding Dict.get
after-Distinct = (refl, (refl, tt))

compare_files-IsChange_example : All (IsChange before after) (compare_files before after)
compare_files-IsChange_example = compare_files-IsChange before after before-Distinct after-Distinct

compare_files-Reports_example : Reports "a.bsl" deleted (compare_files before after)
unfolding Dict.get
compare_files-Reports_example = compare_files-Reports before after "a.bsl" deleted refl

check_for_changes-lost_example :
    ((check_for_changes true before after).1 ≡ none)
    × ((check_for_changes false (check_for_changes true before after).0 after).1 ≡ none)
check_for_changes-lost_example = check_for_changes-lost false before after after-Distinct

abbrev event : Bool → Bool → Bool → FileEvent
event create write removed = record {
  uri = "a.bsl";
  source = true;
  create = create;
  write = write;
  removed = removed;
}

abbrev nothing : Dict String FileChangeType
nothing = []

collect_all-follow_all_example :
    Dict.get (collect_all nothing (event true false false ∷ event false true false ∷ [])) "a.bsl"
    ≡ follow_all "a.bsl"
        (Dict.get nothing "a.bsl")
        (event true false false ∷ event false true false ∷ [])
collect_all-follow_all_example =
    collect_all-follow_all nothing (event true false false ∷ event false true false ∷ []) "a.bsl"
