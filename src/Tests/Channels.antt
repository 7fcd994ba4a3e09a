-- ===== src/Tests/Channels.antt =====
-- An output channel at concrete bytes and replies.
use trav_lang.Common.{ℕ, ◌≡◌, refl, List, [], ◌∷◌, arith, blit, false}
use trav_lang.Channels.{
  Channel, written, interrupted, finished, flush, really_putblock, flush_partial, write_out,
  putblock_loop, putblock,
}
use trav_lang.Channels.Input.{InputChannel, Reading, granted, given, really_getblock, getword}
use trav_lang.Channels.Reads.{IsReadable}
use trav_lang.Channels.Gets.{Gets, really_getblock-Gets}
use trav_lang.Channels.Output.{IsOpen, Emptied, flush-Emptied}
use trav_lang.Channels.Puts.{Puts, really_putblock-Puts}

-- Four bytes of room, two of them used, and a system that takes a few bytes at a time.
abbrev narrow : Channel
narrow = record {
  buff = 1 ∷ 2 ∷ 0 ∷ 0 ∷ [];
  curr = 2;
  offset = 10;
  text_mode = false;
  sent = [];
  replies = written 1 ∷ interrupted ∷ written 2 ∷ written 3 ∷ written 4 ∷ [];
}

abbrev five : List ℕ
five = 3 ∷ 4 ∷ 5 ∷ 6 ∷ 7 ∷ []

narrow-IsOpen : IsOpen 10 4 narrow
narrow-IsOpen = record {
  buffer = refl;
  inside = omega arith;
  position = omega arith;
  serves = (omega arith, (omega arith, (omega arith, (omega arith, tt))));
}

five_put :
    really_putblock narrow five
    ≡ finished tt (record narrow {
      buff = 7 ∷ 5 ∷ 6 ∷ 7 ∷ [];
      curr = 1;
      offset = 16;
      sent = 1 ∷ 2 ∷ 3 ∷ 4 ∷ 5 ∷ 6 ∷ [];
      replies = written 4 ∷ [];
    })
unfolding really_putblock putblock_loop putblock flush_partial write_out blit
five_put = refl

flush-Emptied_example : Emptied 10 4 narrow (flush narrow)
flush-Emptied_example = flush-Emptied 10 4 narrow narrow-IsOpen

really_putblock-Puts_example : Puts 10 4 five narrow (really_putblock narrow five)
really_putblock-Puts_example = really_putblock-Puts 10 4 narrow five (omega arith) narrow-IsOpen

-- Five bytes of room, two of them still to be read, and a file that comes in pieces.
abbrev reading : InputChannel
reading = record {
  buff = 1 ∷ 2 ∷ 3 ∷ 0 ∷ 0 ∷ [];
  curr = 1;
  max = 3;
  offset = 3;
  text_mode = false;
  file = 4 ∷ 5 ∷ 6 ∷ 7 ∷ [];
  readings = Reading.interrupted ∷ granted 1 ∷ granted 9 ∷ granted 9 ∷ [];
}

reading-IsReadable : IsReadable reading
reading-IsReadable = record {
  room = omega arith;
  ordered = omega arith;
  inside = omega arith;
  serves = (omega arith, (omega arith, (omega arith, tt)));
}

five_got :
    really_getblock reading 5
    ≡ given (2 ∷ 3 ∷ 4 ∷ 5 ∷ 6 ∷ []) (record reading {
      buff = 5 ∷ 6 ∷ 7 ∷ 0 ∷ 0 ∷ [];
      curr = 2;
      offset = 7;
      file = [];
      readings = granted 9 ∷ [];
    })
unfolding really_getblock
five_got = refl

word_got :
    getword reading
    ≡ given 0x02030405 (record reading {
      buff = 5 ∷ 6 ∷ 7 ∷ 0 ∷ 0 ∷ [];
      curr = 1;
      max = 3;
      offset = 7;
      file = [];
      readings = granted 9 ∷ [];
    })
unfolding getword
word_got = refl

really_getblock-Gets_example : Gets (2 ∷ 3 ∷ 4 ∷ 5 ∷ 6 ∷ 7 ∷ []) 5 (really_getblock reading 5)
really_getblock-Gets_example = really_getblock-Gets reading 5 reading-IsReadable
