-- ===== src/Examples/Outgoing.antt =====
-- The writer of a body over a world that is what was written.
use jotpot_server.Base.{ℕ, ◌≡◌, refl, true, none, some, [], ◌∷◌, ◌++◌, Bytes, codes, length, inl}
use jotpot_server.Base.Int.{pos}
use jotpot_server.Jps.Pipe.{to, through, close_all}
use jotpot_server.Jps.Outgoing.{
  Below, Writer, pipe, new_writer, write, set_buffered, bytes_body, set_length, get_writer,
  get_piped_body, get_raw_body, write_to, close, flush_buffer, close_bodies,
}
use jotpot_server.Jps.Outgoing.Buffers.{Reach, start, wrote, write-buffered}

-- One body, with the handle 0; nothing fails.
below : Below Bytes ℕ ℕ ℕ
below = record {
  handles = record {
    write = λ b src w. (w ++ src, length src, none);
    close = λ b w. (w, none);
    flush = λ b w. (w, none);
    can_flush = λ b. true;
  };
  body = λ w. (w, inl 0);
  set_body_length = λ l w. (w, none);
  body_length = λ w. (w, pos 0, none);
  new_buffer = λ bs w. (w, 0);
  recycle = λ u w. w;
  buffer_write = λ u src w. (w, 0, none);
  buffer_flush = λ u w. (w, none);
}

abbrev fresh : Writer Bytes ℕ ℕ ℕ
fresh = new_writer []

text_body : bytes_body below (codes "ok") fresh [] ≡ some (fresh, codes "ok", none)
unfolding below set_length bytes_body write get_writer get_piped_body get_raw_body write_to close
    flush_buffer close_bodies new_writer to through close_all
text_body = refl

-- A writer after a first write.
abbrev started : Writer Bytes ℕ ℕ ℕ
started = record fresh { raw_body = some 0; piped_body = pipe (0 ∷ []) }

first_write : write below (codes "a") fresh [] ≡ some (started, codes "a", (1, none))
unfolding below write get_writer get_piped_body get_raw_body write_to new_writer to through
first_write = refl

started-Reach : Reach below [] started
started-Reach = wrote fresh started [] (codes "a") (codes "a") (1, none) start first_write

write-buffered_example : write below (codes "b") (set_buffered true started).0 (codes "a") ≡ none
write-buffered_example = write-buffered below [] started (codes "b") (codes "a") started-Reach
