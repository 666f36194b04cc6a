-- ===== src/Lyrics/Cache/Writer/Flush.antt =====
-- rust_backend/crates/providers/src/lyrics/cache.rs: the end of a flush.
use spoti_flac_mobile.Lyrics.Cache.Writer.{idle, waiting, storing, write}
use spoti_flac_mobile.Lyrics.Cache.Writer.{
  Phase, flush_end, writer_turn, Pending, World, storing, Reach, idle, waiting, IsSettled, write,
}
use spoti_flac_mobile.Lyrics.Cache.Writer.Agree.{Agrees, Reach-IsConsistent}
use spoti_flac_mobile.Prelude.{
  inl, inr, some, none, false, Option, ◌≡◌, refl, subst, ap, List, ◌∷◌, ◌⊎◌, In, [], ◌∙◌,
}
use spoti_flac_mobile.Lyrics.Cache.{Text, State}

module _ {Line : Type 0} where
  idle-IsSettled :
      (phase : Phase Line) (s : State Line) (last written : Option (Pending Line))
      → Agrees phase s last written
      → s.writing ≡ false
      → s.error ≡ none
      → last ≡ written
  idle-IsSettled idle s last written (_, inl settled) w e = settled
  idle-IsSettled idle s last written (_, inr (m, told)) w e = absurd (cc)
  idle-IsSettled waiting s last written (w', _) w e = absurd (cc)
  idle-IsSettled (storing p) s last written (w', _) w e = absurd (cc)

  -- When `flush` returns without an error, whatever the calls, the writes and their failures were,
  -- the file holds what was asked for last: all entries for the path, as they were after lyrics were
  -- set or the cache was cleared, or after a new path was set while the thread had still to take what
  -- was asked for.
  pub flush_end-written :
      {w : World Line}
      → Reach w
      → w.state.writing ≡ false
      → (flush_end w.state).0 ≡ none
      → w.last ≡ w.written
  unfolding flush_end
  flush_end-written {w} r idle_now no_error =
      idle-IsSettled w.phase w.state w.last w.written (Reach-IsConsistent r).1 idle_now no_error

  turn-idle :
      (f : Option Text) (w : World Line)
      → w.phase ≡ idle
      → ((writer_turn f w).phase ≡ idle) × ((writer_turn f w).state ≡ w.state)
  unfolding writer_turn
  turn-idle f w p = rw p (refl, refl)

  turn-waiting :
      (f : Option Text) (w : World Line) (q : Pending Line)
      → w.phase ≡ waiting
      → w.state.pending ≡ some q
      → ((writer_turn f w).phase ≡ storing q) × ((writer_turn f w).state.pending ≡ none)
  unfolding writer_turn
  turn-waiting f w q p due = rw (p, due) (refl, refl)

  turn-storing_last :
      (f : Option Text) (w : World Line) (q : Pending Line)
      → w.phase ≡ storing q
      → w.state.pending ≡ none
      → ((writer_turn f w).phase ≡ idle) × ((writer_turn f w).state.error ≡ f)
  unfolding writer_turn
  turn-storing_last f w q p taken = rw (p, taken) (refl, refl)

  turn-storing :
      (f : Option Text) (w : World Line) (q r : Pending Line)
      → w.phase ≡ storing q
      → w.state.pending ≡ some r
      → ((writer_turn f w).phase ≡ waiting) × ((writer_turn f w).state.pending ≡ some r)
  unfolding writer_turn
  turn-storing f w q r p due = rw (p, due) (refl, refl)

  -- A thread that has ended, with an error.
  abbrev Ended : Option Text → World Line → Type 0
  Ended f w = (w.phase ≡ idle) × (w.state.error ≡ f)

  Ended-idle : (f g : Option Text) (w : World Line) → Ended f w → Ended f (writer_turn g w)
  Ended-idle f g w (p, e) = let (p', s) = turn-idle g w p in (p', ap (λ t. t.error) s ∙ e)

  two_turns :
      (a b : Option Text) (w : World Line) (q : Pending Line)
      → w.phase ≡ waiting
      → w.state.pending ≡ some q
      → Ended b (writer_turn b (writer_turn a w))
  two_turns a b w q p due =
      let (storing_now, taken) = turn-waiting a w q p due in
      turn-storing_last b (writer_turn a w) q storing_now taken

  -- The thread was idle before, or its error is that of one of the turns.
  abbrev Tells : List (Option Text) → World Line → World Line → Type 0
  Tells failures w w' =
      ((w.state.writing ≡ false) × (w'.state ≡ w.state)) ⊎ In w'.state.error failures

  three_turns :
      (a b c : Option Text) (phase : Phase Line) (w : World Line)
      → Agrees phase w.state w.last w.written
      → w.phase ≡ phase
      → let w' = writer_turn c (writer_turn b (writer_turn a w)) in
        (w'.phase ≡ idle) × Tells (a ∷ b ∷ c ∷ []) w w'
  three_turns a b c idle w (quiet, _) p =
      let (p1, s1) = turn-idle a w p in
      let (p2, s2) = turn-idle b (writer_turn a w) p1 in
      let (p3, s3) = turn-idle c (writer_turn b (writer_turn a w)) p2 in
      (p3, inl (quiet, s3 ∙ s2 ∙ s1))
  three_turns a b c waiting w (_, (q, due, _)) p =
      let (p3, e) = Ended-idle b c _ (two_turns a b w q p due) in (p3, inr (inr (inl e)))
  three_turns a b c (storing q) w (_, inl (taken, _)) p =
      let (p3, e) =
        Ended-idle a c (writer_turn b (writer_turn a w))
          (Ended-idle a b (writer_turn a w) (turn-storing_last a w q p taken)) in
      (p3, inr (inl e))
  three_turns a b c (storing q) w (_, inr (r, due, _)) p =
      let (waits, still_due) = turn-storing a w q r p due in
      let (p3, e) = two_turns b c (writer_turn a w) r waits still_due in
      (p3, inr (inr (inr (inl e))))

  -- Three turns of the thread with no call in between, whether its writes fail or not, end every
  -- flush: nobody writes any more, and the file holds what the calls asked for last, or the error is
  -- there to be told. If somebody was writing before, what is told is the outcome of one of the three
  -- writes, and else the state is as it was.
  pub writer_turn-ends :
      {w : World Line} (a b c : Option Text)
      → Reach w
      → (w' : World Line) × (w' ≡ writer_turn c (writer_turn b (writer_turn a w)))
        × (w'.state.writing ≡ false)
        × IsSettled w'.state w'.last w'.written
        × (((w.state.writing ≡ false) × (w'.state ≡ w.state))
            ⊎ In (flush_end w'.state).0 (a ∷ b ∷ c ∷ []))
  unfolding flush_end
  writer_turn-ends {w} a b c r =
      let after = writer_turn c (writer_turn b (writer_turn a w)) in
      let (ends, tells) = three_turns a b c w.phase w (Reach-IsConsistent r).1 refl in
      let (quiet, settled) =
        subst (λ phase. Agrees phase after.state after.last after.written) ends
          (Reach-IsConsistent (write c (write b (write a r)))).1 in
      (after, refl, quiet, settled, tells)
