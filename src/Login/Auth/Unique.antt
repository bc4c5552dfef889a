-- ===== src/Login/Auth/Unique.antt =====
-- A user has one account, and a request goes on as the user that its token names.
use mathlib.Core.Path.{subst}
use ggs.Prelude.{
  ℕ, suc, ◌≤◌, ◌≡◌, inl, inr, refl, sym, ap, ap₂, ◌∙◌, Bool, true, false, Option, none, some, List,
  [], ◌∷◌, ◌++◌, if◌then◌else◌, ok, if_elim, Bool-cases, Option-cases, Result-cases, arith,
}
use ggs.Prelude.Int.{ℤ}
use ggs.Prelude.Map.{bytes_eq, beq_refl}
use ggs.Login.Auth.{
  Text, Account, AccountInfo, Request, token_string, Tokens, parse_token, find_account,
  create_or_get_account, AuthRun, create_account, get_or_create_account, account_info, auth_token,
  auth,
}

-- How many accounts a user has.
abbrev pub of_user : Text → List Account → ℕ
of_user uid [] = 0
of_user uid (a ∷ accs) = let n = of_user uid accs in if bytes_eq.beq a.uid uid then suc n else n

abbrev pub OneEach : List Account → Type 0
OneEach accs = (uid : Text) → of_user uid accs ≤ 1

of_user-none :
    (uid : Text) (accs : List Account) → find_account uid accs ≡ none → of_user uid accs ≡ 0
unfolding find_account
of_user-none uid [] h = refl
of_user-none uid (a ∷ accs) h = ground (arith, of_user-none uid accs)

create_or_get-OneEach :
    (a : Account) (accs : List Account) → OneEach accs → OneEach (create_or_get_account a accs).1
unfolding create_or_get_account
create_or_get-OneEach a accs k uid = elim (Option-cases (find_account a.uid accs)) [
  | inr (x, e) ↦ rw (create_or_get_account, e) (k uid)
  | inl e ↦
      rw (create_or_get_account, e) (go (bytes_eq.beq a.uid uid) refl (of_user-none a.uid accs e))
]
  where
    go :
        (b : Bool)
        → bytes_eq.beq a.uid uid ≡ b
        → of_user a.uid accs ≡ 0
        → (if b then suc (of_user uid accs) else of_user uid accs) ≤ 1
    go true e h =
        let same = (bytes_eq.beq_iff a.uid uid).0 e in
        omega (arith, h, ap (λ u. of_user u accs) same)
    go false e h = k uid

module _ (run : AuthRun) (uid : Text) where
  create_account-OneEach :
      (id : ℤ) (accs : List Account) → OneEach accs → OneEach (create_account run uid id accs).1
  unfolding create_account
  create_account-OneEach id accs k =
      let made = create_or_get-OneEach (record { id = id; uid = uid }) accs k in
      if_elim (λ (p : Option Account × List Account). OneEach p.1) run.create_fails
        (λ _. if_elim OneEach run.made (λ _. made) (λ _. k)) (λ _. made)

  get_or_create-OneEach :
      (accs : List Account)
      → OneEach accs
      → OneEach (run.others ++ accs)
      → OneEach (get_or_create_account run uid accs).1
  unfolding get_or_create_account
  get_or_create-OneEach accs k k' = elim (Bool-cases run.get_fails) [
    | inl e ↦ rw (get_or_create_account, e) k
    | inr e ↦ elim (Option-cases (find_account uid accs)) [
      | inr (a, f) ↦ rw (get_or_create_account, e, f) k
      | inl f ↦ elim (Option-cases run.generated) [
        | inl g ↦ rw (get_or_create_account, e, f, g) k
        | inr (id, g) ↦
            rw (get_or_create_account, e, f, g) (create_account-OneEach id (run.others ++ accs) k')
      ]
    ]
  ]

  create_or_get_finds :
      (id : ℤ) (accs : List Account)
      → let r = create_or_get_account (record { id = id; uid = uid }) accs in
        find_account uid r.1 ≡ some r.0
  unfolding create_or_get_account find_account
  create_or_get_finds id accs = elim (Option-cases (find_account uid accs)) [
    | inr (x, e) ↦ rw (create_or_get_account, e) e
    | inl e ↦ rw (create_or_get_account, e) (rw (beq_refl uid) refl)
  ]

  create_account_finds :
      (id : ℤ) (accs : List Account) (a : Account)
      → (create_account run uid id accs).0 ≡ some a
      → find_account uid (create_account run uid id accs).1 ≡ some a
  unfolding create_account
  create_account_finds id accs a h = elim (Bool-cases run.create_fails) [
    | inl e ↦ absurd (ground arith)
    | inr e ↦
        let found = create_or_get_finds id accs in
        let same : (create_or_get_account (record { id = id; uid = uid }) accs).0 ≡ a =
          ground arith in
        rw (create_account, e) (found ∙ ap some same)
  ]

  get_or_create_finds :
      (accs : List Account) (a : Account)
      → (get_or_create_account run uid accs).0 ≡ some a
      → find_account uid (get_or_create_account run uid accs).1 ≡ some a
  unfolding get_or_create_account
  get_or_create_finds accs a h = elim (Bool-cases run.get_fails) [
    | inl e ↦ absurd (ground arith)
    | inr e ↦ elim (Option-cases (find_account uid accs)) [
      | inr (x, f) ↦
          let same : x ≡ a = ground arith in rw (get_or_create_account, e, f) (f ∙ ap some same)
      | inl f ↦ elim (Option-cases run.generated) [
        | inl g ↦ absurd (ground arith)
        | inr (id, g) ↦
            let made : (create_account run uid id (run.others ++ accs)).0 ≡ some a = ground arith in
            rw (get_or_create_account, e, f, g)
              (create_account_finds id (run.others ++ accs) a made)
      ]
    ]
  ]

account_info_accounts :
    (uid : Text) (r : Option Account × List Account) → (account_info uid r).1 ≡ r.1
account_info_accounts uid (none, accs) = refl
account_info_accounts uid (some a, accs) = refl

account_info_ok :
    (uid : Text) (r : Option Account × List Account) (info : AccountInfo)
    → (account_info uid r).0 ≡ ok info
    → (info.user_uid ≡ uid) × (a : Account) × (r.0 ≡ some a) × (a.id ≡ info.account_id)
account_info_ok uid (none, accs) info h = absurd (ground arith)
account_info_ok uid (some a, accs) info h = (ground arith, a, refl, ground arith)

module _ (k : Tokens) (run : AuthRun) (r : Request) (accs : List Account) where
  -- Whatever fails, and whatever other requests insert meanwhile, a request leaves every user with
  -- one account at most, if the other requests do.
  pub auth-OneEach : OneEach accs → OneEach (run.others ++ accs) → OneEach (auth k run r accs).1
  unfolding auth auth_token
  auth-OneEach one one' = elim (Result-cases (token_string r)) [
    | inr (x, e) ↦ rw (auth, e) one
    | inl (t, e) ↦ elim (Option-cases (parse_token k t)) [
      | inl f ↦ rw (auth, e, auth_token, f) one
      | inr (uid, f) ↦
          rw (auth, e, auth_token, f)
            (subst OneEach (sym (account_info_accounts uid (get_or_create_account run uid accs)))
              (get_or_create-OneEach run uid accs one one'))
    ]
  ]

  -- A request goes on only with a token that is accepted, as the user that the token names, and with
  -- the account that the collection has for that user.
  pub auth_user :
      (info : AccountInfo)
      → (auth k run r accs).0 ≡ ok info
      → (token : Text) × (token_string r ≡ ok token)
        × (parse_token k token ≡ some info.user_uid)
        × (a : Account) × (find_account info.user_uid (auth k run r accs).1 ≡ some a)
        × (a.id ≡ info.account_id)
  unfolding auth auth_token
  auth_user info h = elim (Result-cases (token_string r)) [
    | inr (x, e) ↦ absurd (ground arith)
    | inl (t, e) ↦ elim (Option-cases (parse_token k t)) [
      | inl f ↦ absurd (ground arith)
      | inr (uid, f) ↦
          let got = get_or_create_account run uid accs in
          let shown : (account_info uid got).0 ≡ ok info = ground arith in
          let (same, a, g, i) = account_info_ok uid got info shown in
          let kept : (auth k run r accs).1 ≡ got.1 =
            rw (auth, e, auth_token, f) (account_info_accounts uid got) in
          (
            t,
            e,
            f ∙ ap some (sym same),
            a,
            ap₂ find_account same kept ∙ get_or_create_finds run uid accs a g,
            i,
          )
    ]
  ]
