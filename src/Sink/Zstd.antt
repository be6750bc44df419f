-- ===== src/Sink/Zstd.antt =====
-- lib/compressed_sink.cpp: `ZstdSink` and its `Impl`, over the zstd library.
use tracey_mctraceface.Base.{
  ℕ, zero, suc, ◌<◌, ◌≤◌, ◌≡◌, ◌⊎◌, Bool, true, false, not, List, [], ◌∷◌, ◌++◌, Option, none, some,
  Bytes, codes, is_empty, if◌then◌else◌, length, take, drop, ltb, ◌==◌,
}
use tracey_mctraceface.Base.Outcome.{Result, ok, throws, Void, done, Action}
use tracey_mctraceface.Sink.{Stream, fwrite}

-- What a call of `ZSTD_compressStream2` does: how much of the input it consumes, what it puts into the
-- output buffer, and what it returns, where `failed` is `ZSTD_isError` of that.
pub record Call (C : Type 0) : Type 0 where
  pub context : C
  pub consumed : ℕ
  pub produced : Bytes
  pub returned : ℕ
  pub failed : Bool

-- What the sink relies on of zstd. `owed` counts the bytes that a context still has to put out, of
-- which its buffers hold at most `most_owed`; a call that does not fail either takes input or puts out
-- what is owed, and a call with `ZSTD_e_end` that leaves something puts out a part of it. `Wrote c source
-- frame` says that the context has taken `source` and put out `frame`; once the end is reached the
-- frame expands to the source.
pub record Zstd : Type 1 where
  pub Context : Type 0
  pub compress : Context → Bytes → (is_end : Bool) → Call Context
  pub error_name : ℕ → Bytes
  pub expand : Bytes → Option Bytes
  pub owed : Context → ℕ
  pub most_owed : ℕ
  pub Wrote : Context → Bytes → Bytes → Type 0
  pub owed_le : (c : Context) → owed c ≤ most_owed
  pub progress :
      (c : Context) (b : ℕ) (input : Bytes)
      → (compress c (b ∷ input) false).failed ≡ false
      → (0 < (compress c (b ∷ input) false).consumed)
        ⊎ (owed (compress c (b ∷ input) false).context < owed c)
  pub end_progress :
      (c : Context)
      → (compress c [] true).failed ≡ false
      → 0 < (compress c [] true).returned
      → owed (compress c [] true).context < owed c
  pub compress_wrote :
      (c : Context) (input source frame : Bytes) (is_end : Bool)
      → (compress c input is_end).failed ≡ false
      → Wrote c source frame
      → Wrote
          (compress c input is_end).context
          (source ++ take (compress c input is_end).consumed input)
          (frame ++ (compress c input is_end).produced)
  pub end_expands :
      (c : Context) (source frame : Bytes)
      → (compress c [] true).failed ≡ false
      → (compress c [] true).returned ≡ 0
      → Wrote c source frame
      → expand (frame ++ (compress c [] true).produced) ≡ some source

abbrev pub write_failed : Bytes
write_failed = codes "ZstdSink: write failed (disk full?)"

-- What the output buffer holds is written to the file.
unfoldable pub write_output : Bytes → Action Stream Void
write_output produced f =
    if not (is_empty produced)
    then (let (f', written) = fwrite produced f in
        (if written == length produced then ok done else throws write_failed, f'))
    else (ok done, f)

-- The same, with what `fwrite` returns not looked at.
unfoldable pub put_output : Bytes → Stream → Stream
put_output produced f = if not (is_empty produced) then (fwrite produced f).0 else f

module _ (z : Zstd) where
  open z use {Context, compress, error_name}

  -- What a run of the loop of `write` leaves: `none` where it is out of fuel.
  abbrev pub Written : Type 0
  Written = Option (Result Void × Context × Stream)

  -- The next round, unless the file took too little.
  unfoldable pub next_round : Context → (Stream → Written) → Result Void × Stream → Written
  next_round c rest (ok v, f) = rest f
  next_round c rest (throws e, f) = some (throws e, c, f)

  -- The loop of `Impl::write`, over the input from `pos` on.
  unfoldable pub write_loop : ℕ → Bytes → Context → Stream → Written
  write_loop fuel [] c f = some (ok done, c, f)
  write_loop zero (b ∷ input) c f = none
  write_loop (suc fuel) (b ∷ input) c f =
      let call = compress c (b ∷ input) false in
      let rest = write_loop fuel (drop call.consumed (b ∷ input)) call.context in
      if call.failed
      then some (
        throws (codes "ZstdSink: compress failed: " ++ error_name call.returned),
        call.context,
        f,
      )
      else next_round call.context rest (write_output call.produced f)

  -- The loop of `Impl::close`.
  unfoldable pub close_loop : ℕ → Context → Stream → Option Stream
  close_loop zero c f = none
  close_loop (suc fuel) c f =
      let call = compress c [] true in
      let f' = put_output call.produced f in
      let rest = close_loop fuel call.context f' in
      if call.failed then some f else if ltb 0 call.returned then rest else some f'

  pub record ZstdSink : Type 0 where
    pub file : Option Stream
    pub ctx : Option Context

  -- The constructor: what `fopen` and `ZSTD_createCCtx` give, and the stream that is closed again.
  unfoldable pub new_zstd_sink :
      Bytes → Option Stream → Option Context → Result ZstdSink × Option Stream
  new_zstd_sink path none ctx = (throws (codes "ZstdSink: failed to open " ++ path), none)
  new_zstd_sink path (some f) none = (throws (codes "ZstdSink: failed to create context"), some f)
  new_zstd_sink path (some f) (some c) = (ok (record { file = some f; ctx = some c }), none)

  abbrev pub written_sink : Result Void × Context × Stream → Result Void × ZstdSink
  written_sink (r, c, f) = (r, record { file = some f; ctx = some c })

  abbrev pub map_written : Written → Option (Result Void × ZstdSink)
  map_written none = none
  map_written (some w) = some (written_sink w)

  abbrev pub zstd_write_to :
      ℕ → Bytes → ZstdSink → Option Context → Option Stream → Option (Result Void × ZstdSink)
  zstd_write_to fuel bytes s (some c) (some f) = map_written (write_loop fuel bytes c f)
  zstd_write_to fuel bytes s _ _ = some (ok done, s)

  -- `Impl::write`
  unfoldable pub zstd_write : ℕ → Bytes → ZstdSink → Option (Result Void × ZstdSink)
  unfolding write_loop
  zstd_write fuel bytes s = zstd_write_to fuel bytes s s.ctx s.file

  abbrev pub closed_sink : ZstdSink
  closed_sink = record { file = none; ctx = none }

  abbrev pub map_closed : Option Stream → Option (ZstdSink × Option Stream)
  map_closed none = none
  map_closed (some f) = some (closed_sink, some f)

  abbrev pub zstd_close_of : ℕ → Option Context → Option Stream → Option (ZstdSink × Option Stream)
  zstd_close_of fuel (some c) (some f) = map_closed (close_loop fuel c f)
  zstd_close_of fuel ctx file = some (closed_sink, file)

  -- `Impl::close`: the sink after it, and the stream that `fclose` has been given, if any.
  unfoldable pub zstd_close : ℕ → ZstdSink → Option (ZstdSink × Option Stream)
  unfolding close_loop
  zstd_close fuel s = zstd_close_of fuel s.ctx s.file

  -- How a session ended, and the stream that was closed.
  abbrev pub Session : Type 0
  Session = Option (Result Void × Option Stream)

  abbrev pub end_session : Result Void → Option (ZstdSink × Option Stream) → Session
  end_session r none = none
  end_session r (some (s, closed)) = some (r, closed)

  -- The pieces that are left, unless the write threw: then the destructor closes the sink.
  unfoldable pub next_piece : ℕ → (ZstdSink → Session) → Option (Result Void × ZstdSink) → Session
  unfolding zstd_close
  next_piece fuel rest none = none
  next_piece fuel rest (some (ok v, s)) = rest s
  next_piece fuel rest (some (throws e, s)) = end_session (throws e) (zstd_close fuel s)

  -- A client that writes one piece after the other and then closes the sink. `fuel` is that of each
  -- loop.
  unfoldable pub zstd_session : ℕ → List Bytes → ZstdSink → Session
  unfolding zstd_close
  zstd_session fuel [] s = end_session (ok done) (zstd_close fuel s)
  zstd_session fuel (piece ∷ pieces) s =
      next_piece fuel (zstd_session fuel pieces) (zstd_write fuel piece s)
