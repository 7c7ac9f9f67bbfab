-- ===== src/Limiter/Runs.antt =====
-- Runs of the limiter: what Allowed answers.
use retune.Base.{
  Bool, List, Text, [], ap, arith, false, if◌then◌else◌, leb, length, ltb, not, refl, suc, true, ℕ,
  ◌&&◌, ◌+◌, ◌∙◌, ◌∷◌, ◌≡◌, ◌≤◌,
}
use retune.Limiter.{
  Entry, allowed, delete, evict, fail, is_none, live, max_limiter_keys, recent, reset, sweep,
}
use retune.Limiter.Refines.{
  Agrees, History, delete-Agrees, later-Agrees, live_later, put-Agrees, recent-Agrees, recent-times,
  spec_fail, spec_reset, sweep-Agrees,
}

-- A call, with its readings of the clock, its key, and for Fail the key that an eviction meets first.
pub data Call : Type 0 where
  asks : ℕ → Text → Call
  fails : ℕ → (Text → ℕ) → ℕ → Text → Text → Call
  resets : Text → Call

-- The clock does not go back.
abbrev pub InOrder : ℕ → List Call → Type 0
InOrder now [] = Unit
InOrder now (asks at key ∷ cs) = (now ≤ at) × InOrder at cs
InOrder now (fails at sweeps last key victim ∷ cs) =
    (now ≤ at) × (at ≤ last) × ((k : Text) → sweeps k ≤ last) × InOrder last cs
InOrder now (resets key ∷ cs) = InOrder now cs

module _ (max window : ℕ) where
  -- The answers of Allowed in a run of the limiter.
  unfoldable pub answers : List Entry → List Call → List Bool
  unfolding allowed fail reset
  answers t [] = []
  answers t (asks now key ∷ cs) =
      let (b, left) = allowed max window now key t in b ∷ answers left cs
  answers t (fails now sweeps last key victim ∷ cs) =
      answers (fail max window now sweeps last key victim t) cs
  answers t (resets key ∷ cs) = answers (reset max window key t) cs

  -- How many of the failures are less than `window` old.
  abbrev pub failures_within : ℕ → List ℕ → ℕ
  failures_within now [] = 0
  failures_within now (at ∷ times) =
      let older = failures_within now times in if leb (at + window) now then older else suc older

  length-live :
      (now : ℕ) (times : List ℕ) → length (live max window now times) ≡ failures_within now times
  unfolding live
  length-live now [] = refl
  length-live now (at ∷ times) = let ih = length-live now times in ground (arith, ih)

  -- What they should be: fewer than `max` failures since the last success within the window.
  unfoldable pub spec_answers : History → List Call → List Bool
  spec_answers h [] = []
  spec_answers h (asks now key ∷ cs) = ltb (failures_within now (h key)) max ∷ spec_answers h cs
  spec_answers h (fails now sweeps last key victim ∷ cs) = spec_answers (spec_fail key last h) cs
  spec_answers h (resets key ∷ cs) = spec_answers (spec_reset key h) cs

  -- Fail would forget a key at random: the key is new, and the table is full even without the keys
  -- whose failures have expired.
  abbrev pub crowded : List ℕ → (Text → ℕ) → List Entry → Bool
  crowded times sweeps left =
      (is_none max window times && leb max_limiter_keys (length left))
      && not (ltb (length (sweep max window sweeps left left)) max_limiter_keys)

  -- At no Fail of the run.
  abbrev pub NeverCrowded : List Entry → List Call → Type 0
  NeverCrowded t [] = Unit
  NeverCrowded t (asks now key ∷ cs) = NeverCrowded (allowed max window now key t).1 cs
  NeverCrowded t (fails now sweeps last key victim ∷ cs) =
      (crowded (recent max window now key t).0 sweeps (recent max window now key t).1 ≡ false)
      × NeverCrowded (fail max window now sweeps last key victim t) cs
  NeverCrowded t (resets key ∷ cs) = NeverCrowded (reset max window key t) cs

  -- What a Fail that is not crowded leaves of the other keys.
  left_over :
      (later : ℕ) (sweeps : Text → ℕ) (victim : Text) (times : List ℕ) (left : List Entry)
      (h : History)
      → ((k : Text) → sweeps k ≤ later)
      → crowded times sweeps left ≡ false
      → Agrees max window later left h
      → Agrees max window later
          (if is_none max window times && leb max_limiter_keys (length left)
            then evict max window sweeps victim left
            else left)
          h
  unfolding evict
  left_over later sweeps victim times left h n c a =
      by_test (is_none max window times && leb max_limiter_keys (length left))
        (ltb (length (sweep max window sweeps left left)) max_limiter_keys) c
    where
      by_test :
          (full room : Bool)
          → (full && not room) ≡ false
          → Agrees max window later
              (if full
                then (if room
                    then sweep max window sweeps left left
                    else delete victim (sweep max window sweeps left left))
                else left)
              h
      by_test false room e = a
      by_test true true e = sweep-Agrees max window sweeps later left left h n a
      by_test true false e = absurd (cc e)

  -- Allowed answers as the full record of failures says: yes exactly if fewer than `max` of the key's
  -- failures since its last success are within the window. The run starts with a table that agrees with
  -- the record, the clock does not go back, and at no Fail is the table full of keys with failures that
  -- have not expired.
  pub answers-spec_answers :
      (now : ℕ) (t : List Entry) (h : History) (cs : List Call)
      → Agrees max window now t h
      → InOrder now cs
      → NeverCrowded t cs
      → answers t cs ≡ spec_answers h cs
  unfolding answers spec_answers allowed fail reset
  answers-spec_answers now t h [] a i r = refl
  answers-spec_answers now t h (asks at key ∷ cs) a i r =
      let a2 = later-Agrees max window now at t h i.0 a in
      let times = recent-times max window at key t ∙ a2 key in
      let ih =
        answers-spec_answers at (recent max window at key t).1 h cs
          (recent-Agrees max window at key t h a2) i.1 r in
      cc (ap (λ s. ltb (length s) max) times, length-live at (h key), ih)
  answers-spec_answers now t h (fails at sweeps last key victim ∷ cs) a i r =
      let a2 = later-Agrees max window now at t h i.0 a in
      let (times, left) = recent max window at key t in
      let a3 =
        later-Agrees max window at last left h i.1 (recent-Agrees max window at key t h a2) in
      let own =
        ap (live max window last) (recent-times max window at key t ∙ a2 key)
        ∙ live_later max window at last (h key) i.1 in
      answers-spec_answers last (fail max window at sweeps last key victim t) (spec_fail key last h)
        cs
        (put-Agrees max window last key times _ h
          (left_over last sweeps victim times left h i.2 r.0 a3) own)
        i.3 r.1
  answers-spec_answers now t h (resets key ∷ cs) a i r =
      answers-spec_answers now (delete key t) (spec_reset key h) cs
        (delete-Agrees max window now key t h a) i r
