-- ===== src/Models/State.antt =====
-- The mongoose models that the services share, and the state that they work on.
use flowdeck_backend.Base.{List, some, none, [], ◌++◌, ◌∷◌}
use flowdeck_backend.Cache.{Redis}
use flowdeck_backend.Cache.Memory.{memory_redis}
use flowdeck_backend.Models.Boards.{Board, BoardList, Card}
use flowdeck_backend.Models.Channels.{Channel, ChannelMember, Message}
use flowdeck_backend.Models.Effects.{Effect, FileAsset, Notification}
use flowdeck_backend.Models.Pages.{Page, PageRevision}
use flowdeck_backend.Models.Tokens.{RefreshToken}
use flowdeck_backend.Models.Workspaces.{Membership, User, Workspace}
use flowdeck_backend.Store.{Collection, Exec, list_collection, modify}

pub record Models : Type 1 where
  pub board : Collection Board
  pub board_list : Collection BoardList
  pub card : Collection Card
  pub page : Collection Page
  pub page_revision : Collection PageRevision
  pub workspace : Collection Workspace
  pub membership : Collection Membership
  pub user : Collection User
  pub channel : Collection Channel
  pub channel_member : Collection ChannelMember
  pub message : Collection Message
  pub refresh_token : Collection RefreshToken
  pub notification : Collection Notification
  pub file_asset : Collection FileAsset
  pub redis : Redis

pub record Db (m : Models) : Type 0 where
  pub boards : m.board.Coll
  pub lists : m.board_list.Coll
  pub cards : m.card.Coll
  pub pages : m.page.Coll
  pub revisions : m.page_revision.Coll
  pub workspaces : m.workspace.Coll
  pub memberships : m.membership.Coll
  pub users : m.user.Coll
  pub channels : m.channel.Coll
  pub channel_members : m.channel_member.Coll
  pub messages : m.message.Coll
  pub refresh_tokens : m.refresh_token.Coll
  pub notifications : m.notification.Coll
  pub file_assets : m.file_asset.Coll
  pub cached : m.redis.Store
  pub effects : List Effect

abbrev pub cause : {m : Models} → Effect → Exec (Db m) (Unit {0})
cause e = modify (λ db. record db { effects = db.effects ++ e ∷ [] })

-- A call of the cache's services.
unfoldable pub on_cache : {m : Models} {A : Type 0} → Exec m.redis.Store A → Exec (Db m) A
on_cache action db = let (r, s) = action db.cached in (r, record db { cached = s })

-- The models over collections held as lists, and the empty database over them.
abbrev pub list_models : Models
list_models = record {
  board = list_collection Board;
  board_list = list_collection BoardList;
  card = list_collection Card;
  page = list_collection Page;
  page_revision = list_collection PageRevision;
  workspace = list_collection Workspace;
  membership = list_collection Membership;
  user = list_collection User;
  channel = list_collection Channel;
  channel_member = list_collection ChannelMember;
  message = list_collection Message;
  refresh_token = list_collection RefreshToken;
  notification = list_collection Notification;
  file_asset = list_collection FileAsset;
  redis = memory_redis;
}

abbrev pub empty_db : Db list_models
empty_db = record {
  boards = [];
  lists = [];
  cards = [];
  pages = [];
  revisions = [];
  workspaces = [];
  memberships = [];
  users = [];
  channels = [];
  channel_members = [];
  messages = [];
  refresh_tokens = [];
  notifications = [];
  file_assets = [];
  cached = some (λ k. none);
  effects = [];
}
