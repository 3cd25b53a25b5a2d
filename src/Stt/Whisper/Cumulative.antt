-- ===== src/Stt/Whisper/Cumulative.antt =====
-- The hypotheses of adapters/stt_whisper.py run on from the start of the session.
use lad_translate.Stt.Whisper.{
  Options, Pass, Ear, WhisperStt, is_empty, window_s, track_silence, note_pass_cost,
  transcribe_buffer, hypothesis, hear, is_quiet, is_overlong, lock, on_text, pass_or_wait, on_frame,
  finish, last_text, emitted, transcribe, keep_segments,
}
use lad_translate.Adapters.Events.{AudioFrame, Hypothesis}
use lad_translate.Session.Backlog.{duration}
use lad_translate.Common.Text.{Text, strip}
use lad_translate.Common.Text.Strip.{IsStripped, strip-IsStripped, strip-append}
use lad_translate.Common.{
  ltb, leb, ◌==◌, if◌then◌else◌, Bool-cases, ℕ, suc, ◌+◌, ◌≡◌, refl, sym, ap, ◌∙◌, subst, inl, inr,
  Bool, true, false, not, ◌&&◌, ◌||◌, Option, none, some, List, [], ◌∷◌, ◌++◌,
}

-- Behind the number of a hypothesis and the text of the last final one: each hypothesis has the next
-- number and begins with that text.
abbrev pub IsCumulative : ℕ → Text → List Hypothesis → Type 0
IsCumulative n locked [] = Unit
IsCumulative n locked (h ∷ hs) =
    (h.seq ≡ suc n)
    × ((r : Text) × (h.text ≡ locked ++ r))
    × IsCumulative (suc n) (if h.is_final then h.text else locked) hs

module _ {ℓ} {A : Type ℓ} (o : Options) (ear : Ear A) where
  -- The two fields that a hypothesis is made of.
  record KeepsText (s u : WhisperStt A) : Type 0 where
    locked : u.locked_text ≡ s.locked_text
    number : u.seq ≡ s.seq

  track-KeepsText :
      (audio : List A) (long : ℕ) (s : WhisperStt A)
      → KeepsText s (track_silence o ear audio long s)
  unfolding track_silence
  track-KeepsText audio long s = elim (Bool-cases (is_empty audio)) [
    | inl e ↦ rw e (record { locked = refl; number = refl })
    | inr e ↦ rw e (record { locked = refl; number = refl })
  ]

  hear-KeepsText : (f : AudioFrame) (s : WhisperStt A) → KeepsText s (hear o ear f s)
  unfolding hear
  hear-KeepsText f s =
      let k = track-KeepsText (ear.resample f) (duration f) (record s {
        buffer = s.buffer ++ ear.resample f;
        buffer_start_audio = if is_empty s.buffer then f.t_audio else s.buffer_start_audio;
      }) in
      record { locked = k.locked; number = k.number }

  cost-KeepsText :
      (elapsed window : ℕ) (s : WhisperStt A) → KeepsText s (note_pass_cost o ear elapsed window s)
  unfolding note_pass_cost
  cost-KeepsText elapsed window s = elim (Bool-cases (window == 0)) [
    | inl e ↦ rw e (record { locked = refl; number = refl })
    | inr e ↦ elim (Bool-cases (leb elapsed o.emit_interval)) [
      | inl f ↦ rw (e, f) (record { locked = refl; number = refl })
      | inr f ↦ elim (Bool-cases (ltb (suc s.over_budget_passes) 2 || s.warned_unsustainable)) [
        | inl g ↦ rw (e, f, g) (record { locked = refl; number = refl })
        | inr g ↦ rw (e, f, g) (record { locked = refl; number = refl })
      ]
    ]
  ]

  buffer-KeepsText :
      (pass : Pass) (s : WhisperStt A) → KeepsText s (transcribe_buffer o ear pass s).1
  unfolding transcribe_buffer
  buffer-KeepsText pass s = elim (Bool-cases (is_empty s.buffer)) [
    | inl e ↦ rw e (record { locked = refl; number = refl })
    | inr e ↦ elim (Bool-cases (ltb (ear.rms s.buffer) o.speech_rms)) [
      | inl f ↦ rw (e, f) (record { locked = refl; number = refl })
      | inr f ↦
          let counted : WhisperStt A = record s {
            suppressed = s.suppressed + (keep_segments ear.lower pass.segments).1;
          } in
          let k = cost-KeepsText pass.elapsed_s (window_s o ear s.buffer) counted in
          rw (e, f) (record { locked = k.locked; number = k.number })
    ]
  ]

  -- What one step of the stream hands on, before and after.
  data Emits (s u : WhisperStt A) (out : Option Hypothesis) : Type 0 where
    nothing : out ≡ none → KeepsText s u → Emits s u out
    interim :
        (h : Hypothesis)
        → out ≡ some h
        → h.is_final ≡ false
        → h.seq ≡ suc s.seq
        → u.seq ≡ suc s.seq
        → ((r : Text) × (h.text ≡ s.locked_text ++ r))
        → u.locked_text ≡ s.locked_text
        → Emits s u out
    final :
        (h : Hypothesis)
        → out ≡ some h
        → h.is_final ≡ true
        → h.seq ≡ suc s.seq
        → u.seq ≡ suc s.seq
        → ((r : Text) × (h.text ≡ s.locked_text ++ r))
        → u.locked_text ≡ h.text
        → IsStripped h.text
        → Emits s u out

  on_text-Emits :
      (text : Text) (quiet overlong : Bool) (now : ℕ) (s : WhisperStt A)
      → IsStripped s.locked_text
      → let out = on_text o ear text quiet overlong now s in Emits s out.1 out.0
  unfolding on_text hypothesis lock
  on_text-Emits text quiet overlong now s stripped =
      elim (Bool-cases (is_empty text && not quiet)) [
        | inl e ↦ rw e (nothing refl (record { locked = refl; number = refl }))
        | inr e ↦ elim (Bool-cases (quiet || overlong)) [
          | inl f ↦
              rw (e, f)
                (final _ refl refl refl refl (strip-append s.locked_text (32 ∷ text) stripped) refl
                  (strip-IsStripped (s.locked_text ++ (32 ∷ text))))
          | inr f ↦
              rw (e, f)
                (interim _ refl refl refl refl (strip-append s.locked_text (32 ∷ text) stripped)
                  refl)
        ]
      ]

  KeepsText-Emits :
      (s s' u : WhisperStt A) (out : Option Hypothesis)
      → KeepsText s s'
      → Emits s' u out
      → Emits s u out
  KeepsText-Emits s s' u out k (nothing e l) =
      nothing e (record { locked = l.locked ∙ k.locked; number = l.number ∙ k.number })
  KeepsText-Emits s s' u out k (interim h e f n m (r, p) l) =
      interim h e f (n ∙ ap suc k.number) (m ∙ ap suc k.number) (r, p ∙ ap (λ t. t ++ r) k.locked)
        (l ∙ k.locked)
  KeepsText-Emits s s' u out k (final h e f n m (r, p) l w) =
      final h e f (n ∙ ap suc k.number) (m ∙ ap suc k.number) (r, p ∙ ap (λ t. t ++ r) k.locked) l w

  pass-Emits :
      (f : AudioFrame) (pass : Pass) (s : WhisperStt A)
      → IsStripped s.locked_text
      → let out = pass_or_wait o ear f pass s in Emits s out.1 out.0
  unfolding pass_or_wait
  pass-Emits f pass s stripped =
      let ready : WhisperStt A = record s { next_emit = f.t_wall + o.emit_interval } in
      let heard = transcribe_buffer o ear pass ready in
      let k = buffer-KeepsText pass ready in
      let same : KeepsText s heard.1 = record { locked = k.locked; number = k.number } in
      elim (Bool-cases
        (ltb f.t_wall s.next_emit && (not (is_quiet o ear s) && not (is_overlong o ear s)))) [
          | inl e ↦ rw e (nothing refl (record { locked = refl; number = refl }))
          | inr e ↦ rw e (
              KeepsText-Emits s heard.1 _ _ same (
                on_text-Emits heard.0 (is_quiet o ear s) (is_overlong o ear s) pass.now heard.1
                  (subst (λ t. IsStripped t) (sym k.locked) stripped)))
        ]

  on_frame-Emits :
      (f : AudioFrame) (pass : Pass) (s : WhisperStt A)
      → IsStripped s.locked_text
      → let out = on_frame o ear f pass s in Emits s out.1 out.0
  unfolding on_frame
  on_frame-Emits f pass s stripped =
      let k = hear-KeepsText f s in
      KeepsText-Emits s (hear o ear f s) _ _ k
        (pass-Emits f pass (hear o ear f s) (subst (λ t. IsStripped t) (sym k.locked) stripped))

  last-IsCumulative :
      (text : Text) (now : ℕ) (s u : WhisperStt A)
      → KeepsText s u
      → IsStripped s.locked_text
      → IsCumulative s.seq s.locked_text (emitted o ear (last_text o ear text now u).0 [])
  unfolding last_text hypothesis
  last-IsCumulative text now s u k stripped =
      let p = strip-append s.locked_text (32 ∷ text) stripped in
      elim (Bool-cases (is_empty text)) [
        | inl g ↦ rw g tt
        | inr g ↦
            rw g (ap suc k.number, (p.0, ap (λ t. strip (t ++ (32 ∷ text))) k.locked ∙ p.1), tt)
      ]

  -- The end of the stream hands on one last final hypothesis, or none.
  finish-IsCumulative :
      (pass : Pass) (s : WhisperStt A)
      → IsStripped s.locked_text
      → IsCumulative s.seq s.locked_text (emitted o ear (finish o ear pass s).0 [])
  unfolding finish
  finish-IsCumulative pass s stripped =
      let heard = transcribe_buffer o ear pass s in
      elim (Bool-cases (is_empty s.buffer)) [
        | inl e ↦ rw e tt
        | inr e ↦
            subst
              (λ b. IsCumulative s.seq s.locked_text (
                emitted o ear (if b then (none, s) else last_text o ear heard.0 pass.now heard.1).0
                  []))
              (sym e)
              (last-IsCumulative heard.0 pass.now s heard.1 (buffer-KeepsText pass s) stripped)
      ]

  next-IsCumulative :
      (s u : WhisperStt A) (out : Option Hypothesis) (hs : List Hypothesis)
      → Emits s u out
      → IsCumulative u.seq u.locked_text hs
      → IsCumulative s.seq s.locked_text (emitted o ear out hs)
  next-IsCumulative s u out hs (nothing e k) c = rw e (
      subst (λ n. IsCumulative n s.locked_text hs) k.number
        (subst (λ t. IsCumulative u.seq t hs) k.locked c))
  next-IsCumulative s u out hs (interim h e f n m p l) c = rw e (
    n,
    p,
    rw f
        (subst (λ k. IsCumulative k s.locked_text hs) m (subst (λ t. IsCumulative u.seq t hs) l c)),
  )
  next-IsCumulative s u out hs (final h e f n m p l w) c = rw e (
    n,
    p,
    rw f (subst (λ k. IsCumulative k h.text hs) m (subst (λ t. IsCumulative u.seq t hs) l c)),
  )

  Emits-IsStripped :
      (s u : WhisperStt A) (out : Option Hypothesis)
      → IsStripped s.locked_text
      → Emits s u out
      → IsStripped u.locked_text
  Emits-IsStripped s u out k (nothing e l) = subst (λ t. IsStripped t) (sym l.locked) k
  Emits-IsStripped s u out k (interim h e f n m p l) = subst (λ t. IsStripped t) (sym l) k
  Emits-IsStripped s u out k (final h e f n m p l w) = subst (λ t. IsStripped t) (sym l) w

  -- Whatever the frames, what the model hears in them and when, the hypotheses of a stream are
  -- numbered one after the other, and each begins with the text of the last final one before it;
  -- the first ones with what was locked before the stream, whose ends are stripped.
  pub transcribe-IsCumulative :
      (events : List (AudioFrame × Pass)) (last : Pass) (s : WhisperStt A)
      → IsStripped s.locked_text
      → IsCumulative s.seq s.locked_text (transcribe o ear events last s).0
  unfolding transcribe
  transcribe-IsCumulative [] last s stripped = finish-IsCumulative last s stripped
  transcribe-IsCumulative ((f, pass) ∷ rest) last s stripped =
      let out = on_frame o ear f pass s in
      let step = on_frame-Emits f pass s stripped in
      next-IsCumulative s out.1 out.0 _ step
        (transcribe-IsCumulative rest last out.1 (Emits-IsStripped s out.1 out.0 stripped step))
