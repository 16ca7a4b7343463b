-- ===== src/Output/Buffers.antt =====
-- output_mix.c and output_write.c: how the two output buffers go to and fro between the mixing and
-- the writing thread. Each step is what a thread does between two looks at a buffer's status; memory
-- is taken to be sequentially consistent.
pub mod Fifo
use mptsd.Base.{
  ℕ, ◌≡◌, Bool, true, false, not, List, [], ◌∷◌, ◌++◌, Option, none, some, Bytes, if◌then◌else◌,
}
use mptsd.Output.{ObufStatus, obuf_empty, obuf_filling, obuf_full, obuf_emptying, Obuf, obuf_reset}

-- The buffers, and for each thread its `buf_in_use` (true for 1) and whether it is at work on that
-- buffer.
pub record Duo : Type 0 where
  pub obuf0 : Obuf
  pub obuf1 : Obuf
  pub mix_in_use : Bool
  pub mixing : Bool
  pub write_in_use : Bool
  pub writing : Bool

abbrev pub obuf : Duo → Bool → Obuf
obuf d false = d.obuf0
obuf d true = d.obuf1

abbrev pub put_obuf : Duo → Bool → Obuf → Duo
put_obuf d false ob = record d { obuf0 = ob }
put_obuf d true ob = record d { obuf1 = ob }

abbrev pub is_empty : ObufStatus → Bool
is_empty obuf_empty = true
is_empty _ = false

abbrev pub is_full : ObufStatus → Bool
is_full obuf_full = true
is_full _ = false

-- The buffer that both threads start with is 0.
abbrev pub new_duo : Obuf → Obuf → Duo
new_duo ob0 ob1 = record {
  obuf0 = ob0;
  obuf1 = ob1;
  mix_in_use = false;
  mixing = false;
  write_in_use = false;
  writing = false;
}

pub data Action : Type 0 where
  -- the mixing thread finds its buffer empty and marks it
  mix_begins : Action
  -- it has filled the buffer with these packets, marks it full and switches
  mix_ends : List Bytes → Action
  -- the writing thread finds its buffer full and marks it
  write_begins : Action
  -- it has written the buffer, resets it and switches
  write_ends : Action

unfoldable pub mix_begin : Duo → Option Duo
mix_begin d =
    let ob = obuf d d.mix_in_use in
    if d.mixing
    then none
    else if is_empty ob.status
    then some
        (record (put_obuf d d.mix_in_use (record ob { status = obuf_filling })) { mixing = true })
    else none

unfoldable pub mix_end : Duo → List Bytes → Option Duo
mix_end d packets =
    let ob = obuf d d.mix_in_use in
    if d.mixing
    then some (record (put_obuf d d.mix_in_use (record ob { buf = packets; status = obuf_full })) {
      mixing = false;
      mix_in_use = not d.mix_in_use;
    })
    else none

unfoldable pub write_begin : Duo → Option Duo
write_begin d =
    let ob = obuf d d.write_in_use in
    if d.writing
    then none
    else if is_full ob.status
    then some (record (put_obuf d d.write_in_use (record ob { status = obuf_emptying })) {
      writing = true;
    })
    else none

unfoldable pub write_end : Duo → Option Duo
write_end d =
    let ob = obuf d d.write_in_use in
    if d.writing
    then some (record (put_obuf d d.write_in_use (obuf_reset ob)) {
      writing = false;
      write_in_use = not d.write_in_use;
    })
    else none

-- `none` for a step that the thread cannot take now.
unfoldable pub step : Duo → Action → Option Duo
step d mix_begins = mix_begin d
step d (mix_ends packets) = mix_end d packets
step d write_begins = write_begin d
step d write_ends = write_end d
