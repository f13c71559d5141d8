-- ===== src/World/Nodes.antt =====
-- What a path of the file system holds. A directory holds nothing itself: the nodes below it have
-- longer locations.
use bsord.Base.{Text}

pub data Node : Type 0 where
  regular : Text → Node
  directory : Node
  symlink : Text → Node
