-- ===== src/Stratum/RequestExamples.antt =====
-- src/stratum/stratum.cpp: requests of a miner on concrete inputs.
use monero_solo_stratum.Common.{ℕ, inl, arith, ◌≡◌, refl, false, List, [], ◌∷◌, ◌++◌}
use monero_solo_stratum.Common.Text.{codes, to_string}
use monero_solo_stratum.Common.Map.{one_if, lookup}
use monero_solo_stratum.Stratum.Targets.{decode_hex}
use monero_solo_stratum.Stratum.Submits.{Server, admit_pending}
use monero_solo_stratum.Stratum.SubmitHistories.{IsIdle}
use monero_solo_stratum.Stratum.Json.{is_in}
use monero_solo_stratum.Stratum.Submission.{StratumSubmission, resolve, claims_candidate}
use monero_solo_stratum.Stratum.Requests.{process_line}
use monero_solo_stratum.Stratum.LineFates.{LineFate, process_line-LineFate}
use monero_solo_stratum.Stratum.Fates.{held}
use monero_solo_stratum.Stratum.LineHistories.{reads, none_yet, followed_by, live_ids_exact}
use monero_solo_stratum.Stratum.Reading.{
  Received, received, recv_would_block, take_lines, read_ready,
}
use monero_solo_stratum.Stratum.Framing.{Continues, take_lines-Continues}
use monero_solo_stratum.Stratum.ReadBounds.{IsWaiting, read_ready-IsWaiting}
use monero_solo_stratum.Stratum.Fixtures.{
  Part, part_json, responses, config, miner, idle_server, callbacks,
}
use monero_solo_stratum.Stratum.Guests.{GuestFate, process_line-GuestFate}

abbrev line : List ℕ
line = codes "keepalived"

abbrev after_keepalive : Server StratumSubmission
after_keepalive = process_line responses config Part callbacks 5 0 line idle_server

process_line-LineFate_example : LineFate 0 idle_server after_keepalive
process_line-LineFate_example =
    process_line-LineFate responses config Part callbacks 5 0 line idle_server

idle_server-IsIdle : IsIdle idle_server
idle_server-IsIdle = record {
  no_counts = λ id. refl;
  no_ordinary = refl;
  no_candidates = refl;
  no_working = refl;
  no_completed = refl;
}

-- A line in two reads.
abbrev submit_answers : List Received
submit_answers =
    received (codes "sub") ∷ received (codes "mit" ++ b'\n' ∷ []) ∷ recv_would_block ∷ []

abbrev after_submit : Server StratumSubmission
after_submit = (read_ready responses config Part callbacks 5 0 submit_answers [] idle_server).server

live_ids_exact_example :
    one_if (is_in (codes "i:7") (after_submit.connections 0).live_request_ids)
    ≡ held (codes "i:7") 0 after_submit
unfolding read_ready process_line to_string decode_hex resolve lookup claims_candidate admit_pending
live_ids_exact_example =
    live_ids_exact responses config Part idle_server after_submit 0 (codes "i:7") idle_server-IsIdle
      (λ i. refl) (followed_by none_yet (reads callbacks 5 0 submit_answers [] refl refl)) refl refl

-- The submission is queued and its id stays live.
after_submit_state :
    ((after_submit.connections 0).live_request_ids ≡ codes "i:7" ∷ [])
    × (held (codes "i:7") 0 after_submit ≡ 1)
unfolding read_ready process_line to_string decode_hex resolve lookup claims_candidate admit_pending
after_submit_state = (refl, refl)

-- A line and the beginning of the next, then its end.
abbrev first_part : List ℕ
first_part = codes "submit" ++ b'\n' ∷ codes "keep"

abbrev second_part : List ℕ
second_part = codes "alived" ++ b'\n' ∷ []

take_lines-Continues_example :
    Continues responses config Part callbacks 5 0 second_part
      (take_lines responses config Part callbacks 5 0 first_part idle_server)
      (take_lines responses config Part callbacks 5 0 (first_part ++ second_part) idle_server)
take_lines-Continues_example =
    take_lines-Continues responses config Part callbacks 5 0 first_part second_part idle_server

-- The keepalive is after_keepalive and its id is free again.
answered_output :
    ((after_keepalive.connections 0).output ≡ record { text = codes "kept"; offset = 0 } ∷ [])
    × ((after_keepalive.connections 0).live_request_ids ≡ [])
unfolding process_line to_string
answered_output = (refl, refl)

-- A line in two reads, and the beginning of the next.
abbrev waiting_answers : List Received
waiting_answers =
    received (codes "sub") ∷ received (codes "mit" ++ b'\n' ∷ codes "keep") ∷ recv_would_block ∷ []

read_ready-IsWaiting_example : IsWaiting config (codes "keep")
unfolding read_ready process_line to_string decode_hex resolve lookup claims_candidate admit_pending
read_ready-IsWaiting_example =
    read_ready-IsWaiting responses config Part callbacks 5 0 waiting_answers [] idle_server
      (omega arith, (omega arith, tt)) (record { no_line = refl; short = inl (omega arith) }) refl

-- A connection that is not authenticated, and its login.
abbrev guests : Server StratumSubmission
guests = record idle_server { connections = λ index. record miner { authenticated = false } }

process_line-GuestFate_example :
    GuestFate config Part 0
      (codes "login")
      guests
      (process_line responses config Part callbacks 5 0 (codes "login") guests)
process_line-GuestFate_example =
    process_line-GuestFate config Part responses callbacks 5 0 (codes "login") guests refl
