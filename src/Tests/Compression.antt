-- ===== src/Tests/Compression.antt =====
-- The summaries of a session (context/compression.py) of three messages.
use cogito_agent.Prelude.{◌≤◌, ◌≡◌, refl, true, false, none, some, [], ◌∷◌, String, arith}
use cogito_agent.Compression.{
  SessionMessage, SummaryRow, CompressionService, SummaryDb, update_summary, latest_of,
  messages_after, rowid_of, keep_newer, should_compress, new_summary, get_latest,
}
use cogito_agent.Compression.Covered.{summarized_once}

abbrev service : CompressionService
service = record {
  strategy_name = "deterministic-v1";
  summarize = λ previous ms. "summary";
  policy = record { min_new_messages = 8; min_new_characters = 4000 };
  text_length = λ t. 5;
}

abbrev message : String → SessionMessage
message id = record {
  rowid = 1;
  id = id;
  workspace_id = "w";
  session_id = "s";
  role = "user";
  content = "hello";
}

abbrev three_messages : SummaryDb
three_messages = record {
  messages =
      message "a" ∷ record (message "b") { rowid = 2 } ∷ record (message "c") { rowid = 3 } ∷ [];
  summaries = [];
}

abbrev first_summary : SummaryRow
first_summary =
    new_summary service "w" "s" "1" 10 none (message "a")
      (record (message "b") { rowid = 2 } ∷ record (message "c") { rowid = 3 } ∷ [])

-- Three short messages are too few, unless the summary is forced.
too_few : (update_summary service "w" "s" false "1" 10 three_messages).1 ≡ none
unfolding update_summary latest_of messages_after rowid_of keep_newer should_compress
too_few = refl

forced : (update_summary service "w" "s" true "1" 10 three_messages).1 ≡ some first_summary
unfolding update_summary latest_of messages_after rowid_of keep_newer should_compress
forced = refl

-- Where the last message that was summarized is gone, its session is summarized from the start again.
summarized_again :
    (update_summary service "w" "s" true "2" 20 (record three_messages {
      messages = message "a" ∷ record (message "b") { rowid = 2 } ∷ [];
      summaries = first_summary ∷ [];
    })).1
    ≡ some (
        new_summary service "w" "s" "2" 20
          (some first_summary)
          (message "a")
          (record (message "b") { rowid = 2 } ∷ []))
unfolding update_summary latest_of messages_after rowid_of keep_newer should_compress
summarized_again = refl

no_summary : (b : SummaryRow) → get_latest "w" "s" three_messages ≡ some b → b.created_at ≤ 10
unfolding latest_of
no_summary b h = cc

summarized_once_example :
    let out = (update_summary service "w" "s" true "1" 10 three_messages).0 in
    update_summary service "w" "s" true "2" 20 out ≡ (out, none)
unfolding rowid_of
summarized_once_example =
    summarized_once service "w" "s" true true "1" "2" 10 20 three_messages first_summary
      ((omega arith, (omega arith, tt)), ((omega arith, tt), (tt, tt)))
      ((λ h. refl, refl), ((λ h. refl, refl), ((λ h. refl, refl), tt))) no_summary forced
