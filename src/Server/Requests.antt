-- ===== src/Server/Requests.antt =====
-- The commands that the simulated clients of TCPServer.cpp make up.
use dist_cache.Prelude.{
  ℕ, zero, suc, ◌<◌, ◌≡◌, ◌==◌, refl, false, arith, All-append, All-map, inl, inr, ◌⊎◌, Bool-cases,
}
use dist_cache.Text.{codes}
use dist_cache.Text.Decimal.{to_string}
use dist_cache.Text.Numerals.{IsDigit, to_string-Spells}
use dist_cache.Text.Words.{is_space}
use dist_cache.Text.Lines.{Lacks}
use dist_cache.Server.Client.{Round, command_name, command_value, command}
use dist_cache.Startup.Logged.{IsClean, IsKnown}

pub digit_solid : (c : ℕ) → IsDigit c → is_space c ≡ false
unfolding is_space
digit_solid c h = ground arith

pub digit_inline : (c : ℕ) → IsDigit c → (c == b'\n') ≡ false
digit_inline c h = ground arith

-- The commands that a client makes up can be logged.
pub command-IsClean : {D : Type 0} (i : ℕ) (r : Round D) → IsClean (command i r)
unfolding command is_space
command-IsClean i r = record {
  key_word = (
    λ e. absurd cc,
    All-append (λ c. is_space c ≡ false) (codes "key") (to_string r.key_number)
        (refl, (refl, (refl, tt)))
        (All-map digit_solid (to_string r.key_number) (to_string-Spells r.key_number).digits),
  );
  one_line = value-Lacks i r.choice;
}
  where
    value-Lacks : (i choice : ℕ) → Lacks b'\n' (command_value i choice)
    value-Lacks i choice = elim (Bool-cases (choice == 0)) [
      | inl set ↦ rw set (
          All-append (λ c. (c == b'\n') ≡ false) (codes "value") (to_string i)
            (refl, (refl, (refl, (refl, (refl, tt)))))
            (All-map digit_inline (to_string i) (to_string-Spells i).digits))
      | inr other ↦ rw other tt
    ]

name_known :
    (n : ℕ)
    → n < 3
    → (command_name n ≡ codes "SET")
      ⊎ ((command_name n ≡ codes "GET") ⊎ (command_name n ≡ codes "DEL"))
name_known zero h = inl refl
name_known (suc zero) h = inr (inl refl)
name_known (suc (suc zero)) h = inr (inr refl)
name_known (suc (suc (suc n))) h = absurd (omega arith)

pub command-IsKnown : {D : Type 0} (i : ℕ) (r : Round D) → r.choice < 3 → IsKnown (command i r)
unfolding command
command-IsKnown i r h = name_known r.choice h
