-- ===== src/Eapol/Frames.antt =====
-- drcom/src/eapol.c: the frames that are sent, and what holds of `sendbuff` between two of them.
pub mod Start
pub mod Responses
use jlu_drcom.Base.{
  ℕ, zero, suc, ap, put, ◌+◌, ◌≤◌, ◌≡◌, ◌∙◌, refl, sym, ◌⊎◌, inl, inr, Bytes, List, [], ◌∷◌, Option,
  none, some, arith, length, take, drop, slice, slice-take, length-take, put_all, length-put_all,
  AllApart, slice-put_all, slice-put_all_nth, >>=-eq-some,
}
use jlu_drcom.Ctype.{c_string}
use jlu_drcom.Eapol.{
  Eapol, Arrival, fill, transmit, ethii_8021x, broadcast_mac, buff_len, eapol_start, eapol_logoff,
  eap_res_identity, eap_md5_clg, md5_text, strlen,
}
use jlu_drcom.Eapol.Filters.Laws.{Kept}
use jlu_drcom.Packet.{Digests}

-- EAPOL-Start and EAPOL-Logoff.
pub record IsAnnouncement (mac frame : Bytes) : Type 0 where
  pub size : length frame ≡ 18
  pub receiver : slice 0 6 frame ≡ broadcast_mac
  pub sender : slice 6 6 frame ≡ mac
  pub ethertype : slice 12 2 frame ≡ 0x88 ∷ 0x8e ∷ []
  pub version : slice 14 1 frame ≡ 0x01 ∷ []
  pub kind : (slice 15 1 frame ≡ 0x01 ∷ []) ⊎ (slice 15 1 frame ≡ 0x02 ∷ [])
  pub body_size : slice 16 2 frame ≡ 0 ∷ 0 ∷ []

-- An EAP response, of an identity or to a challenge.
pub record IsResponse (mac frame : Bytes) : Type 0 where
  pub size : length frame ≡ 104
  pub sender : slice 6 6 frame ≡ mac
  pub ethertype : slice 12 2 frame ≡ 0x88 ∷ 0x8e ∷ []
  pub version : slice 14 1 frame ≡ 0x01 ∷ []
  pub kind : slice 15 1 frame ≡ 0x00 ∷ []
  pub body_size : slice 16 2 frame ≡ 0 ∷ 86 ∷ []
  pub code : slice 18 1 frame ≡ 0x02 ∷ []
  pub eap_size : slice 20 2 frame ≡ 0 ∷ 81 ∷ []
  pub type : (slice 22 1 frame ≡ 0x01 ∷ []) ⊎ (slice 22 1 frame ≡ 0x04 ∷ [])

abbrev pub AllFrames : Bytes → List Bytes → Type 0
AllFrames mac [] = Unit
AllFrames mac (frame ∷ frames) =
    (IsAnnouncement mac frame ⊎ IsResponse mac frame) × AllFrames mac frames

-- Between two calls: the arrays have their sizes, and what was sent is in order.
pub record Sound (mac : Bytes) (s : Eapol) : Type 0 where
  pub send_size : length s.sendbuff ≡ 512
  pub mac_size : length mac ≡ 6
  pub own_mac : s.client_mac ≡ mac
  pub frames : AllFrames mac s.sent

-- Behind a start: the headers are written.
pub record Headed (mac : Bytes) (s : Eapol) : Type 0 where
  pub sound : Sound mac s
  pub sender : slice 6 6 s.sendbuff ≡ mac
  pub ethertype : slice 12 2 s.sendbuff ≡ 0x88 ∷ 0x8e ∷ []
  pub version : slice 14 1 s.sendbuff ≡ 0x01 ∷ []

-- Behind an identity: the fields are written that a challenge's answer leaves alone.
pub record Responding (mac : Bytes) (s : Eapol) : Type 0 where
  pub headed : Headed mac s
  pub kind : slice 15 1 s.sendbuff ≡ 0x00 ∷ []
  pub body_size : slice 16 2 s.sendbuff ≡ 0 ∷ 86 ∷ []
  pub code : slice 18 1 s.sendbuff ≡ 0x02 ∷ []
  pub eap_size : slice 20 2 s.sendbuff ≡ 0 ∷ 81 ∷ []

module _ {mac : Bytes} {s t : Eapol} (k : Kept s t) where
  pub Kept-Sound : Sound mac s → Sound mac t
  Kept-Sound h = record {
    send_size = rw k.same_sendbuff h.send_size;
    mac_size = h.mac_size;
    own_mac = k.same_mac ∙ h.own_mac;
    frames = rw k.same_sent h.frames;
  }

  pub Kept-Headed : Headed mac s → Headed mac t
  Kept-Headed h = record {
    sound = Kept-Sound h.sound;
    sender = rw k.same_sendbuff h.sender;
    ethertype = rw k.same_sendbuff h.ethertype;
    version = rw k.same_sendbuff h.version;
  }

  pub Kept-Responding : Responding mac s → Responding mac t
  Kept-Responding h = record {
    headed = Kept-Headed h.headed;
    kind = rw k.same_sendbuff h.kind;
    body_size = rw k.same_sendbuff h.body_size;
    code = rw k.same_sendbuff h.code;
    eap_size = rw k.same_sendbuff h.eap_size;
  }

pub length-slice : (at n : ℕ) (buf : Bytes) → length (slice at n buf) ≤ n
length-slice at n buf = omega (arith, length-take n (drop at buf))

pub length-front : (n : ℕ) (buf : Bytes) → n ≤ length buf → length (take n buf) ≡ n
length-front n buf h = omega (arith, length-take n buf)

-- The bytes of a frame that is the front of the buffer.
pub front :
    (i n m : ℕ) (buf : Bytes) {b : Bytes}
    → i + n ≤ m
    → slice i n buf ≡ b
    → slice i n (take m buf) ≡ b
front i n m buf h e = slice-take i n m buf h ∙ e
