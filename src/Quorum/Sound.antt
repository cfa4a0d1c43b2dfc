-- ===== src/Quorum/Sound.antt =====
-- What an accepted signature of a sync point stands for.
use zsequencer.Network.{Network}
