-- ===== src/Api/Frames/Tests.antt =====
-- Two chunks.
use lxc2docker.Prelude.{◌≡◌, false, [], ◌∷◌, List, some, arith}
use lxc2docker.Strings.{Str, codes}
use lxc2docker.Api.Frames.{write_framed_stream}
use lxc2docker.Api.Frames.Demux.{AllShort, concat, demux, demux_framed}

abbrev chunks : List Str
chunks = codes "hello " ∷ codes "world" ∷ []

demux_framed_example : demux 2 (write_framed_stream false chunks) ≡ some (concat chunks)
demux_framed_example =
    demux_framed chunks 2 (unfold AllShort in (omega arith, (omega arith, tt))) (omega arith)
