-- ===== src/Client/Samples.antt =====
-- Requests with other messages around, and the theorems at work on them.
use ggs.Prelude.{◌≡◌, refl, true, []}
use ggs.Client.{Client, clear_responses}

-- Request 4 has timed out.
abbrev sample_client : Client
sample_client = record { connected = true; seq_incr = 4; req_seq = 4; responses = [] }

cleared_test : (clear_responses sample_client).responses ≡ []
unfolding clear_responses
cleared_test = refl
