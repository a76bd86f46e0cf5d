-- ===== src/Protocol/Pty.antt =====
-- The pseudo-terminal codes of src/pty.rs.
use thrussh_fork.Base.{ℕ, Option, none, some, ◌==◌, if◌then◌else◌}

-- The operation codes, with the numbers that `as u8` gives them below.
pub data Pty : Type 0 where
  tty_op_end vintr vquit verase vkill veof veol veol2 : Pty
  vstart vstop vsusp vdsusp vreprint vwerase vlnext vflush : Pty
  vswtch vstatus vdiscard ignpar parmrk inpck istrip inlcr : Pty
  igncr icrnl iuclc ixon ixany ixoff imaxbel isig : Pty
  icanon xcase echo echoe echok echonl noflsh tostop : Pty
  iexten echoctl echoke pendin opost olcuc onlcr ocrnl : Pty
  onocr onlret cs7 cs8 parenb parodd tty_op_ispeed tty_op_ospeed : Pty

-- `self as u8`
unfoldable pub code : Pty → ℕ
code tty_op_end = 0
code vintr = 1
code vquit = 2
code verase = 3
code vkill = 4
code veof = 5
code veol = 6
code veol2 = 7
code vstart = 8
code vstop = 9
code vsusp = 10
code vdsusp = 11
code vreprint = 12
code vwerase = 13
code vlnext = 14
code vflush = 15
code vswtch = 16
code vstatus = 17
code vdiscard = 18
code ignpar = 30
code parmrk = 31
code inpck = 32
code istrip = 33
code inlcr = 34
code igncr = 35
code icrnl = 36
code iuclc = 37
code ixon = 38
code ixany = 39
code ixoff = 40
code imaxbel = 41
code isig = 50
code icanon = 51
code xcase = 52
code echo = 53
code echoe = 54
code echok = 55
code echonl = 56
code noflsh = 57
code tostop = 58
code iexten = 59
code echoctl = 60
code echoke = 61
code pendin = 62
code opost = 70
code olcuc = 71
code onlcr = 72
code ocrnl = 73
code onocr = 74
code onlret = 75
code cs7 = 90
code cs8 = 91
code parenb = 92
code parodd = 93
code tty_op_ispeed = 128
code tty_op_ospeed = 129

-- The `match` of the source, one test for each arm; 0 and all that is left give `None`.
unfoldable pub from_u8 : ℕ → Option Pty
from_u8 x =
    if x == 0
    then none
    else if x == 1
    then some vintr
    else if x == 2
    then some vquit
    else if x == 3
    then some verase
    else if x == 4
    then some vkill
    else if x == 5
    then some veof
    else if x == 6
    then some veol
    else if x == 7
    then some veol2
    else if x == 8
    then some vstart
    else if x == 9
    then some vstop
    else if x == 10
    then some vsusp
    else if x == 11
    then some vdsusp
    else if x == 12
    then some vreprint
    else if x == 13
    then some vwerase
    else if x == 14
    then some vlnext
    else if x == 15
    then some vflush
    else if x == 16
    then some vswtch
    else if x == 17
    then some vstatus
    else if x == 18
    then some vdiscard
    else if x == 30
    then some ignpar
    else if x == 31
    then some parmrk
    else if x == 32
    then some inpck
    else if x == 33
    then some istrip
    else if x == 34
    then some inlcr
    else if x == 35
    then some igncr
    else if x == 36
    then some icrnl
    else if x == 37
    then some iuclc
    else if x == 38
    then some ixon
    else if x == 39
    then some ixany
    else if x == 40
    then some ixoff
    else if x == 41
    then some imaxbel
    else if x == 50
    then some isig
    else if x == 51
    then some icanon
    else if x == 52
    then some xcase
    else if x == 53
    then some echo
    else if x == 54
    then some echoe
    else if x == 55
    then some echok
    else if x == 56
    then some echonl
    else if x == 57
    then some noflsh
    else if x == 58
    then some tostop
    else if x == 59
    then some iexten
    else if x == 60
    then some echoctl
    else if x == 61
    then some echoke
    else if x == 62
    then some pendin
    else if x == 70
    then some opost
    else if x == 71
    then some olcuc
    else if x == 72
    then some onlcr
    else if x == 73
    then some ocrnl
    else if x == 74
    then some onocr
    else if x == 75
    then some onlret
    else if x == 90
    then some cs7
    else if x == 91
    then some cs8
    else if x == 92
    then some parenb
    else if x == 93
    then some parodd
    else if x == 128
    then some tty_op_ispeed
    else if x == 129
    then some tty_op_ospeed
    else none
