-- ===== src/Hds/Futures.antt =====
-- The futures of an `HDSConnection` of hds.py: which requests have an answer, and which wait.
use atv_homekit_remote.Prelude.{
  ℕ, suc, ◌≡◌, refl, sym, ap, ◌∙◌, ◌<◌, ◌⊎◌, inl, inr, true, false, some, List, [], ◌==◌, arith,
  Bool-cases,
}
use atv_homekit_remote.Prelude.Int.{ℤ, pos, negsuc}
use atv_homekit_remote.Prelude.Dict.{Dict, lookup, contains, insert, erase}
use atv_homekit_remote.HdsCodec.Value.{Formats}
use atv_homekit_remote.Hds.Connection.{
  Answer, Connection, settle, fail_all, end_request, register, erase_id,
}
use atv_homekit_remote.Hds.Answers.{
  IsRegistered, insert-IsRegistered, insert-IsRegistered_self, erase-IsRegistered, erase-insert_nil,
  settle_self, settle-keeps, settle-HasUniqueKeys, fail_all-keeps, fail_all-reaches,
  fail_all-HasUniqueKeys,
}
use atv_homekit_remote.Remote.Valid.{HasUniqueKeys}

pub erase_none : (id : ℕ) (d : Dict ℕ) → d ≡ [] → erase id d ≡ []
unfolding erase
erase_none id d e = rw e refl

pub erase_id_none : (id : ℤ) (d : Dict ℕ) → d ≡ [] → erase_id id d ≡ []
erase_id_none (pos n) d e = erase_none n d e
erase_id_none (negsuc n) d e = e

module _ {fm : Formats} where
  -- The request has its answer, or waits for it.
  abbrev pub IsServed : ℕ → Dict ℕ → List (ℕ × Answer fm) → Type 0
  IsServed f responses answers = (contains f answers ≡ true) ⊎ IsRegistered f responses

  pub record AreServed (next : ℕ) (responses : Dict ℕ) (answers : List (ℕ × Answer fm))
      : Type 0 where
    pub once : HasUniqueKeys answers
    pub served : (f : ℕ) → f < next → IsServed f responses answers

  abbrev pub Serves : Connection fm → Type 0
  Serves c = AreServed c.next_future c.responses c.answers

  -- Nothing waits on a closed connection.
  abbrev pub IsQuiet : Connection fm → Type 0
  IsQuiet c = (c.closed ≡ true) → c.responses ≡ []

  pub erased :
      (id future next : ℕ) (a : Answer fm) (d : Dict ℕ) (xs : List (ℕ × Answer fm))
      → ((g : ℕ) → lookup id d ≡ some g → g ≡ future)
      → AreServed next d xs
      → AreServed next (erase id d) (settle fm future a xs)
  erased id future next a d xs own h = record {
    once = settle-HasUniqueKeys fm future a xs h.once;
    served = λ f less. one f (h.served f less);
  }
    where
      one : (f : ℕ) → IsServed f d xs → IsServed f (erase id d) (settle fm future a xs)
      one f (inl answered) = inl (settle-keeps fm f future a xs answered)
      one f (inr waits) = elim (erase-IsRegistered f id d waits) [
        | inl left ↦ inr left
        | inr found ↦ inl (rw (own f found) (settle_self fm future a xs))
      ]

  pub registered :
      (id next : ℕ) (d : Dict ℕ) (xs : List (ℕ × Answer fm))
      → contains id d ≡ false
      → AreServed next d xs
      → AreServed (suc next) (insert id next d) xs
  registered id next d xs fresh h = record {
    once = h.once;
    served = λ f less. elim (Bool-cases (f == next)) [
      | inl new ↦
          let same : f ≡ next = ground arith in inr (rw same (insert-IsRegistered_self id next d))
      | inr old ↦ elim (h.served f (ground arith)) [
        | inl answered ↦ inl answered
        | inr waits ↦ inr (insert-IsRegistered f id next d fresh waits)
      ]
    ];
  }

  pub failed :
      (next : ℕ) (d : Dict ℕ) (xs : List (ℕ × Answer fm))
      → AreServed next d xs
      → AreServed next [] (fail_all fm d xs)
  failed next d xs h = record {
    once = fail_all-HasUniqueKeys fm d xs h.once;
    served = λ f less. elim (h.served f less) [
      | inl answered ↦ inl (fail_all-keeps fm f d xs answered)
      | inr waits ↦ inl (fail_all-reaches fm f d xs waits)
    ];
  }

  -- A call leaves the futures alone.
  pub record AreSame (c d : Connection fm) : Type 0 where
    pub closed : d.closed ≡ c.closed
    pub next : d.next_future ≡ c.next_future
    pub responses : d.responses ≡ c.responses
    pub answers : d.answers ≡ c.answers

  pub unchanged : (c d : Connection fm) → AreSame c d → Serves c → Serves d
  unchanged c d h s = rw (h.next, h.responses, h.answers) s

  pub unchanged_quiet : (c d : Connection fm) → AreSame c d → IsQuiet c → IsQuiet d
  unchanged_quiet c d h q e = h.responses ∙ q (sym h.closed ∙ e)

  pub register_closed :
      (id : ℕ) (c : Connection fm) → c.closed ≡ true → (register fm id c).closed ≡ true
  unfolding register
  register_closed id c e = e

  pub ended_request :
      (id : ℕ) (c : Connection fm)
      → c.responses ≡ []
      → (end_request fm id c.next_future (register fm id c)).responses ≡ []
  unfolding register end_request
  ended_request id c e =
      ap (λ d. erase id (insert id c.next_future d)) e ∙ erase-insert_nil id c.next_future

  pub nobody_waits :
      (f : ℕ) (d : Dict ℕ) (xs : List (ℕ × Answer fm))
      → d ≡ []
      → IsServed f d xs
      → contains f xs ≡ true
  nobody_waits f d xs e (inl answered) = answered
  nobody_waits f d xs e (inr waits) = absurd (rw e at waits)

  pub itself : (c : Connection fm) → AreSame c c
  itself c = record { closed = refl; next = refl; responses = refl; answers = refl }
