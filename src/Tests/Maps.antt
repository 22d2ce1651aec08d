-- ===== src/Tests/Maps.antt =====
-- A SegmentMap at a concrete sequence of calls.
use polaris_controller.Common.{ℕ, suc, String, ◌≡◌, refl, eq_iff, ◌==◌, true, false, List, [], ◌∷◌}
use polaris_controller.Common.Int.{pos}
use polaris_controller.Common.Outcome.{ok}
use polaris_controller.Util.Maps.{Comparable, get, set, remove}
use polaris_controller.Util.Maps.Segments.{new_segment_map, then_}
use polaris_controller.Util.Maps.Refinement.{
  Command, put_command, compute_command, put_absent_command, get_command, del_command,
  count_command, done, found, deleted, total, on_map, replies_of_map, replies_of_segments,
  replies_of_segments-new,
}

abbrev string_keys : Comparable String
string_keys = record { same = λ a b. a == b; same_iff = eq_iff }

-- The length of the text.
abbrev text_hash : String → ℕ
text_hash String.[] = 0
text_hash (String.◌∷◌ c s) = suc (text_hash s)

abbrev calls : List (Command String ℕ)
calls =
    put_command "a" 1
    ∷ put_command "bcd" 2
    ∷ put_absent_command "a" 3
    ∷ compute_command "xy" (λ k. 4)
    ∷ get_command "bcd"
    ∷ count_command
    ∷ del_command "a"
    ∷ get_command "a"
    ∷ []

calls_on_two_segments :
    then_
      (new_segment_map (pos 2) (λ k. pos (text_hash k)))
      (replies_of_segments string_keys 0 calls)
    ≡ ok (replies_of_map string_keys 0 calls [])
calls_on_two_segments = replies_of_segments-new string_keys 1 text_hash 0 calls

calls_reply :
    replies_of_map string_keys 0 calls []
    ≡ done
      ∷ done
      ∷ found 1 false
      ∷ found 4 true
      ∷ found 2 true
      ∷ total 3
      ∷ deleted true
      ∷ found 0 false
      ∷ []
unfolding replies_of_map on_map get set remove
calls_reply = refl
