-- ===== src/Login/Auth/Samples.antt =====
-- A token library that reads the user off the token, and the theorems at work on it.
use ggs.Prelude.{
  ℕ, ◌≡◌, refl, true, false, none, some, List, [], ◌∷◌, ◌++◌, ok, Bool-cases, inl, inr, arith,
}
use ggs.Prelude.Int.{pos}
use ggs.Prelude.Map.{bytes_eq}
use ggs.Login.Auth.{
  Text, Account, AccountInfo, Request, bearer, token_string, split_space, Tokens, parse_token,
  find_account, create_or_get_account, AuthRun, create_account, get_or_create_account, auth_token,
  auth,
}
use ggs.Login.Auth.Unique.{OneEach, auth-OneEach, auth_user}

abbrev plain_tokens : Tokens
plain_tokens = record {
  Claims = Text;
  parse = λ t. some t;
  verify_issuer = λ c. true;
  get_sub = λ c. some c;
  unmarshal_uid = λ s. some s;
}

-- User 7 asks for the first time, while user 8 has an account and user 9 gets one.
abbrev sample_request : Request
sample_request = record { authorization = bearer ++ (b' ' ∷ 7 ∷ []); query_token = none }

abbrev account_of : ℕ → ℕ → Account
account_of id user = record { id = pos id; uid = user ∷ [] }

abbrev sample_accounts : List Account
sample_accounts = account_of 1 8 ∷ []

abbrev sample_run : AuthRun
sample_run = record {
  get_fails = false;
  generated = some (pos 3);
  others = account_of 2 9 ∷ [];
  create_fails = false;
  made = false;
}

abbrev sample_info : AccountInfo
sample_info = record { account_id = pos 3; user_uid = 7 ∷ [] }

sample_accounts-OneEach : OneEach sample_accounts
sample_accounts-OneEach uid = ground arith

with_others-OneEach : OneEach (sample_run.others ++ sample_accounts)
with_others-OneEach uid = elim (Bool-cases (bytes_eq.beq (9 ∷ []) uid)) [
  | inr e ↦ ground arith
  | inl e ↦ elim (Bool-cases (bytes_eq.beq (8 ∷ []) uid)) [
    | inr f ↦ ground arith
    | inl f ↦
        let nine = (bytes_eq.beq_iff (9 ∷ []) uid).0 e in
        let eight = (bytes_eq.beq_iff (8 ∷ []) uid).0 f in absurd (ground arith)
  ]
]

auth_test : (auth plain_tokens sample_run sample_request sample_accounts).0 ≡ ok sample_info
unfolding auth token_string split_space auth_token parse_token get_or_create_account create_account
    create_or_get_account find_account
auth_test = refl

auth-OneEach_example : OneEach (auth plain_tokens sample_run sample_request sample_accounts).1
auth-OneEach_example =
    auth-OneEach plain_tokens sample_run sample_request sample_accounts sample_accounts-OneEach
      with_others-OneEach

auth_user_example :
    (token : Text) × (token_string sample_request ≡ ok token)
    × (parse_token plain_tokens token ≡ some (7 ∷ []))
    × (a : Account) × (find_account
          (7 ∷ [])
          (auth plain_tokens sample_run sample_request sample_accounts).1
        ≡ some a)
    × (a.id ≡ pos 3)
auth_user_example =
    auth_user plain_tokens sample_run sample_request sample_accounts sample_info auth_test
