-- ===== src/Login/Small.antt =====
-- A small database of characters, as an instance of the services of the login handlers.
use ggs.Prelude.{ℕ, refl, inr, none, List, [], ◌∷◌, arith, if◌then◌else◌, Result, ok, err, suc}
use ggs.Prelude.Int.{ℤ, pos, eqb_ℤ}
use ggs.Login.{Character, DbError, no_documents, Services}
use ggs.Login.Create.{of_account, on_server, IsServices}

-- The characters, and the last identifier made.
abbrev pub Database : Type 0
Database = List Character × ℕ

abbrev pub find_character : ℤ → List Character → Result DbError Character
find_character id [] = err no_documents
find_character id (c ∷ cs) = let rest = find_character id cs in if eqb_ℤ c.id id then ok c else rest

abbrev pub sample_services : Services
sample_services = record {
  D = Database;
  characters = λ d. d.0;
  get_server = λ s d. (ok s, d);
  lock_account = λ a d. (none, d);
  refresh_lock = λ d. (none, d);
  unlock = λ d. d;
  count_by_account = λ a d. (ok (of_account a d.0), d);
  count_by_server = λ a s d. (ok (on_server a s d.0), d);
  gen_character_id = λ d. (ok (pos (suc d.1)), (d.0, suc d.1));
  insert_character = λ c d. (none, (c ∷ d.0, d.1));
  set_actor_server = λ id s d. (none, d);
  get_character = λ id d. (find_character id d.0, d);
}

pub sample_services-IsServices : IsServices sample_services
sample_services-IsServices = record {
  get_server_keeps = λ s d. refl;
  lock_keeps = λ a d. refl;
  refresh_keeps = λ d. refl;
  unlock_keeps = λ d. refl;
  gen_keeps = λ d. refl;
  set_keeps = λ id s d. refl;
  count_keeps = λ a d. refl;
  count_server_keeps = λ a s d. refl;
  counts = λ a n d h. ground arith;
  counts_server = λ a s n d h. ground arith;
  inserts = λ c d h. refl;
  inserts_or_not = λ c d. inr refl;
}

abbrev pub sample_character : Character
sample_character = record { id = pos 1; account_id = pos 7; server_id = pos 101; name = [] }

abbrev pub sample_database : Database
sample_database = (sample_character ∷ [], 1)
